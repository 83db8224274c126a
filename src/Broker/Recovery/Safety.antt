-- ===== src/Broker/Recovery/Safety.antt =====
-- When a rollback may touch bytes, and when it is over.
use alertmind.Prelude.{◌≡◌, ◌≢◌, refl, ap, ◌∙◌, ◌↔◌, true, arith}
use alertmind.Text.{Text, text}
use alertmind.Text.Laws.{text_eq_iff}
use alertmind.Json.{Json, bool, str}
use alertmind.Result.{ok}
use alertmind.Broker.Core.{original_sha256, candidate_sha256, is_digest}
use alertmind.Broker.Recovery.{
  RecoveryObservation, Action, restore_original, rolled_back, recovery_step, next_action, is_flag,
  is_digest_field, is_true, is_text,
}

abbrev pub IsQuiet : RecoveryObservation → Type 0
IsQuiet o = (o.startup_inhibited ≡ bool true) × (o.dashboard_stopped ≡ bool true)

abbrev pub HasBackup : RecoveryObservation → Type 0
HasBackup o = (o.backup_digest ≡ str original_sha256) × (o.backup_metadata_verified ≡ bool true)

pub is_true_iff : (v : Json) → (is_true v ≡ true) ↔ (v ≡ bool true)
unfolding is_true
is_true_iff (bool b) = ground arith
is_true_iff _ = ground arith

pub is_text_iff : (v : Json) (t : Text) → (is_text v t ≡ true) ↔ (v ≡ str t)
unfolding is_text
is_text_iff (str s) t = ground (arith, text_eq_iff s t)
is_text_iff _ t = ground arith

pub flag_true : is_flag (bool true) ≡ true
unfolding is_flag
flag_true = refl

pub original-is_digest : is_digest_field (str original_sha256) ≡ true
unfolding is_digest_field is_digest original_sha256 text
original-is_digest = refl

pub original-ne-candidate : original_sha256 ≢ candidate_sha256
unfolding original_sha256 candidate_sha256 text
original-ne-candidate = ground arith

-- The entry checks pass exactly for flags that are `None` or booleans and digests that are `None`
-- or 64 hexadecimal digits.
pub record IsTyped (o : RecoveryObservation) : Type 0 where
  pub stopped : is_flag o.dashboard_stopped ≡ true
  pub inhibited : is_flag o.startup_inhibited ≡ true
  pub verified : is_flag o.backup_metadata_verified ≡ true
  pub restored : is_flag o.original_metadata_restored ≡ true
  pub client : is_digest_field o.client_digest ≡ true
  pub backup : is_digest_field o.backup_digest ≡ true

pub recovery_step-eq-ok :
    (o : RecoveryObservation) {a : Action}
    → recovery_step o ≡ ok a
    → IsTyped o × (next_action o ≡ a)
unfolding recovery_step
recovery_step-eq-ok o h = (
  record {
    stopped = ground arith;
    inhibited = ground arith;
    verified = ground arith;
    restored = ground arith;
    client = ground arith;
    backup = ground arith;
  },
  ground arith,
)

pub recovery_step_of_IsTyped :
    (o : RecoveryObservation) → IsTyped o → recovery_step o ≡ ok (next_action o)
unfolding recovery_step
recovery_step_of_IsTyped o t = ground arith

module _ (o : RecoveryObservation) where
  next_action-restore_original :
      (next_action o ≡ restore_original)
      ↔ (IsQuiet o × HasBackup o × (o.client_digest ≡ str candidate_sha256))
  unfolding next_action
  next_action-restore_original = ground (
    arith,
    is_true_iff o.startup_inhibited,
    is_true_iff o.dashboard_stopped,
    is_true_iff o.backup_metadata_verified,
    is_text_iff o.client_digest original_sha256,
    is_text_iff o.client_digest candidate_sha256,
    is_text_iff o.backup_digest original_sha256,
  )

  next_action-rolled_back : (next_action o ≡ rolled_back) ↔ (
      IsQuiet o
      × HasBackup o
      × (o.client_digest ≡ str original_sha256)
      × (o.original_metadata_restored ≡ bool true))
  unfolding next_action
  next_action-rolled_back = ground (
    arith,
    is_true_iff o.startup_inhibited,
    is_true_iff o.dashboard_stopped,
    is_true_iff o.backup_metadata_verified,
    is_true_iff o.original_metadata_restored,
    is_text_iff o.client_digest original_sha256,
    is_text_iff o.client_digest candidate_sha256,
    is_text_iff o.backup_digest original_sha256,
    original-ne-candidate,
  )

  -- The original bytes are written back exactly when the entry checks pass, startup is inhibited,
  -- the Dashboard is stopped, the backup is the original with verified metadata, and the installed
  -- client is the candidate.
  pub recovery_step-restore_original_iff :
      (recovery_step o ≡ ok restore_original)
      ↔ (IsTyped o × (IsQuiet o × HasBackup o × (o.client_digest ≡ str candidate_sha256)))
  recovery_step-restore_original_iff = (
    λ h. let (t, e) = recovery_step-eq-ok o h in (t, next_action-restore_original.0 e),
    λ (t, q). recovery_step_of_IsTyped o t ∙ ap ok (next_action-restore_original.1 q),
  )

  -- The rollback is reported as done exactly when startup is inhibited, the Dashboard is stopped,
  -- the backup is the original with verified metadata, and the installed client is the original
  -- with its metadata restored.
  pub recovery_step-rolled_back_iff : (recovery_step o ≡ ok rolled_back) ↔ (
      IsQuiet o
      × HasBackup o
      × (o.client_digest ≡ str original_sha256)
      × (o.original_metadata_restored ≡ bool true))
  recovery_step-rolled_back_iff = (
    λ h. next_action-rolled_back.0 (recovery_step-eq-ok o h).1,
    λ q. recovery_step_of_IsTyped o (typed q) ∙ ap ok (next_action-rolled_back.1 q),
  )
    where
      typed :
          IsQuiet o
            × HasBackup o
            × (o.client_digest ≡ str original_sha256)
            × (o.original_metadata_restored ≡ bool true)
          → IsTyped o
      typed ((i, s), (b, v), c, m) = record {
        stopped = ap is_flag s ∙ flag_true;
        inhibited = ap is_flag i ∙ flag_true;
        verified = ap is_flag v ∙ flag_true;
        restored = ap is_flag m ∙ flag_true;
        client = ap is_digest_field c ∙ original-is_digest;
        backup = ap is_digest_field b ∙ original-is_digest;
      }

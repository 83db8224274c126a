-- ===== src/Broker/Recovery.antt =====
-- `recovery_step` of operator_core.py: one next action of a rollback from one fresh observation.
pub mod Safety
use alertmind.Prelude.{Bool, true, false, not, ◌&&◌, ◌||◌, if◌then◌else◌}
use alertmind.Text.{Text, text_eq}
use alertmind.Json.{Json, null, bool, str}
use alertmind.Result.{Result, ok, err, ◌>>=◌, ◌>>◌, require}
use alertmind.Broker.Core.{original_sha256, candidate_sha256, is_digest}

-- The fields of a dataclass hold whatever the caller gives: `None` means not observed.
pub record RecoveryObservation : Type 0 where
  pub dashboard_stopped : Json
  pub startup_inhibited : Json
  pub client_digest : Json
  pub backup_digest : Json
  pub backup_metadata_verified : Json
  pub original_metadata_restored : Json

pub data Action : Type 0 where
  inhibit_startup stop_dashboard hold_unknown_client hold_unverified_backup : Action
  restore_original restore_metadata rolled_back : Action

-- `value is None or type(value) is bool`
unfoldable pub is_flag : Json → Bool
is_flag null = true
is_flag (bool _) = true
is_flag _ = false

-- `digest is None or type(digest) is str and re.fullmatch('[0-9a-f]{64}', digest)`
unfoldable pub is_digest_field : Json → Bool
is_digest_field null = true
is_digest_field (str s) = is_digest s
is_digest_field _ = false

-- `value is True`
unfoldable pub is_true : Json → Bool
is_true (bool b) = b
is_true _ = false

-- `value == digest` for a digest of the contract
unfoldable pub is_text : Json → Text → Bool
is_text (str s) t = text_eq s t
is_text _ t = false

-- The checks at the entry.
well_typed : RecoveryObservation → Result (Unit {0})
well_typed o = do
  require (is_flag o.dashboard_stopped) "RECOVERY_OBSERVATION"
  require (is_flag o.startup_inhibited) "RECOVERY_OBSERVATION"
  require (is_flag o.backup_metadata_verified) "RECOVERY_OBSERVATION"
  require (is_flag o.original_metadata_restored) "RECOVERY_OBSERVATION"
  require (is_digest_field o.client_digest) "RECOVERY_OBSERVATION"
  require (is_digest_field o.backup_digest) "RECOVERY_OBSERVATION"

-- The ladder of early returns.
unfoldable pub next_action : RecoveryObservation → Action
next_action o =
    if not (is_true o.startup_inhibited)
    then inhibit_startup
    else if not (is_true o.dashboard_stopped)
    then stop_dashboard
    else if not
        (is_text o.client_digest original_sha256 || is_text o.client_digest candidate_sha256)
    then hold_unknown_client
    else if not (is_text o.backup_digest original_sha256)
        || not (is_true o.backup_metadata_verified)
    then hold_unverified_backup
    else if is_text o.client_digest candidate_sha256
    then restore_original
    else if not (is_true o.original_metadata_restored)
    then restore_metadata
    else rolled_back

unfoldable pub recovery_step : RecoveryObservation → Result Action
unfolding well_typed next_action require
recovery_step o = well_typed o >> ok (next_action o)

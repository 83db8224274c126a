-- ===== src/Tests/Rollback.antt =====
-- Runs of the rollback decision of operator_core.py.
use alertmind.Prelude.{◌≡◌, refl, true, false}
use alertmind.Text.{text, text_eq}
use alertmind.Json.{null, bool, int, str}
use alertmind.Prelude.{pos}
use alertmind.Result.{ok, err}
use alertmind.Broker.Core.{original_sha256, candidate_sha256, is_digest}
use alertmind.Broker.Recovery.{
  RecoveryObservation, inhibit_startup, restore_original, rolled_back, recovery_step, is_flag,
  is_digest_field, is_true, is_text,
}
use alertmind.Broker.Recovery.Safety.{
  IsTyped, IsQuiet, HasBackup, recovery_step-restore_original_iff, recovery_step-rolled_back_iff,
}

abbrev quiet : RecoveryObservation
quiet = record {
  dashboard_stopped = bool true;
  startup_inhibited = bool true;
  client_digest = str candidate_sha256;
  backup_digest = str original_sha256;
  backup_metadata_verified = bool true;
  original_metadata_restored = null;
}

abbrev restored : RecoveryObservation
restored = record quiet {
  client_digest = str original_sha256;
  original_metadata_restored = bool true;
}

abbrev unseen : RecoveryObservation
unseen = record quiet { dashboard_stopped = null; startup_inhibited = bool false }

quiet_restores : recovery_step quiet ≡ ok restore_original
unfolding recovery_step is_flag is_digest_field is_digest is_true is_text text_eq original_sha256
    candidate_sha256 text
quiet_restores = refl

unseen_is_inhibited_first : recovery_step unseen ≡ ok inhibit_startup
unfolding recovery_step is_flag is_digest_field is_digest is_true is_text text_eq original_sha256
    candidate_sha256 text
unseen_is_inhibited_first = refl

number_is_refused :
    recovery_step (record quiet { dashboard_stopped = int (pos 1) }) ≡ err "RECOVERY_OBSERVATION"
unfolding recovery_step is_flag is_digest_field is_digest is_true is_text text_eq original_sha256
    candidate_sha256 text
number_is_refused = refl

restored_is_done : recovery_step restored ≡ ok rolled_back
unfolding recovery_step is_flag is_digest_field is_digest is_true is_text text_eq original_sha256
    candidate_sha256 text
restored_is_done = refl

recovery_step-restore_original_iff_example :
    IsTyped quiet × (IsQuiet quiet × HasBackup quiet × (quiet.client_digest ≡ str candidate_sha256))
recovery_step-restore_original_iff_example =
    (recovery_step-restore_original_iff quiet).0 quiet_restores

recovery_step-rolled_back_iff_example : recovery_step restored ≡ ok rolled_back
recovery_step-rolled_back_iff_example =
    (recovery_step-rolled_back_iff restored).1 ((refl, refl), (refl, refl), refl, refl)

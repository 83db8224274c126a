-- ===== src/Assistant/Batch.antt =====
-- runner.py: a run over a corpus, and rebuild_from_audit.py: its scores again from the audit log. The
-- audit log is the list of its records, and the outputs are the assignments to their dict in order.
pub mod Rebuild
pub mod Selection
use alertmind.Prelude.{
  Bool, true, false, not, ◌&&◌, List, [], ◌∷◌, ◌++◌, Option, none, some, is_empty, if◌then◌else◌,
}
use alertmind.Text.{Text, text, text_eq}
use alertmind.Platform.{Platform, Bytes}
use alertmind.Json.{Json, null, bool, str, arr, obj, Fields, end, field, truthy}
use alertmind.Json.Dict.{lookup, get, insert}
use alertmind.Result.{Result, ok, err, ◌>>=◌}
use alertmind.Dumps.{dump, plain_style}
use alertmind.Assistant.Redact.{redact_fields}
use alertmind.Assistant.Views.{apply_view}
use alertmind.Assistant.Prompts.{build_user_prompt}
use alertmind.Assistant.Schema.{SchemaError, validate_output}
use alertmind.Assistant.Scoring.{Score, score_alert}
use alertmind.Assistant.Answer.{Reply, answered, raised, parse_response}

pub data ParseStatus : Type 0 where
  call_error parse_error valid schema_invalid : ParseStatus

-- A row of the scores.
pub record ScoreRow ⦃p : Platform⦄ : Type 0 where
  pub alert_id : Json
  pub ground_truth : Text
  pub confidence : Json
  pub score : Score
  pub schema_valid : Bool
  pub valid_overall_correct : Bool

-- A record of the audit log: what identifies the response, and what the run made of it.
pub record AuditRecord : Type 0 where
  pub alert_id : Json
  pub redacted_prompt : Text
  pub parse_status : ParseStatus
  pub schema_errors : List SchemaError
  pub parsed_output : Fields
  pub raw_response : Text

-- `ground.get(aid, "")`, where `ground` maps texts to texts
unfoldable pub ground_of : List (Text × Text) → Text → Text
ground_of [] k = []
ground_of ((j, g) ∷ ground) k = let later = ground_of ground k in if text_eq j k then g else later

unfoldable pub ground_truth_of : List (Text × Text) → Json → Result Text
ground_truth_of ground (str k) = ok (ground_of ground k)
ground_truth_of ground (arr _) = err "TypeError"
ground_truth_of ground (obj _) = err "TypeError"
ground_truth_of ground _ = ok []

-- `a["alert_id"]`
abbrev required_id : Option Json → Result Json
required_id none = err "KeyError"
required_id (some v) = ok v

unfoldable pub alert_id_of : Fields → Result Json
alert_id_of alert = required_id (lookup (text "alert_id") alert)

-- `parsed["_alert_id"] = aid; parsed["analyst_review_required"] = True`
unfoldable pub with_marks : Json → Json → Result Fields
with_marks aid (obj parsed) =
    ok (insert (text "analyst_review_required") (bool true) (insert (text "_alert_id") aid parsed))
with_marks aid _ = err "TypeError"

-- `json.dumps({"_error": str(e)})`
unfoldable pub error_text : ⦃p : Platform⦄ → Text → Text
error_text message = dump plain_style 0 (obj (field (text "_error") (str message) end))

module _ ⦃p : Platform⦄ where
  -- The text that is parsed, and whether the call failed. The text of an exception is `str(e)` here,
  -- and one whose text is empty leaves `err` false.
  unfoldable pub raw_of : Reply → Text × Bool
  raw_of (answered raw meta) = (raw, false)
  raw_of (raised message meta) = (error_text message, not (is_empty message))

  unfoldable pub status_of : Bool → Bool → Json → ParseStatus
  status_of failed accepted (obj parsed) =
      if failed
      then call_error
      else (if truthy (get (text "_parse_error") parsed)
          then parse_error
          else (if accepted then valid else schema_invalid))
  status_of failed accepted _ =
      if failed then call_error else (if accepted then valid else schema_invalid)

  abbrev pub is_valid : ParseStatus → Bool
  is_valid valid = true
  is_valid _ = false

  abbrev pub row : Json → Text → Fields → Score → Bool → ScoreRow
  row aid truth parsed score schema_valid = record {
    alert_id = aid;
    ground_truth = truth;
    confidence = get (text "confidence") parsed;
    score = score;
    schema_valid = schema_valid;
    valid_overall_correct = schema_valid && score.overall_correct;
  }

  module _ (ground : List (Text × Text)) where
    -- One response, as the run scores it.
    unfoldable pub score_response : Json → Text → Text → Bool → Result (ScoreRow × AuditRecord)
    score_response aid user raw failed = do
      (accepted, errors, parsed) ← validate_output (parse_response raw)
      marked ← with_marks aid parsed
      truth ← ground_truth_of ground aid
      score ← score_alert truth (obj marked)
      let status = status_of failed accepted parsed
      ok (
        row aid truth marked score (is_valid status),
        record {
          alert_id = aid;
          redacted_prompt = user;
          parse_status = status;
          schema_errors = errors;
          parsed_output = marked;
          raw_response = raw;
        },
      )

    -- One record, as the rebuild scores it.
    unfoldable pub rebuild_record : AuditRecord → Result ScoreRow
    rebuild_record rec = do
      (accepted, errors, parsed) ← validate_output (parse_response rec.raw_response)
      marked ← with_marks rec.alert_id parsed
      truth ← ground_truth_of ground rec.alert_id
      score ← score_alert truth (obj marked)
      ok (row rec.alert_id truth marked score accepted)

    unfoldable pub rebuild : List AuditRecord → Result (List ScoreRow)
    rebuild [] = ok []
    rebuild (rec ∷ recs) = rebuild_record rec >>= λ r. rebuild recs >>= λ rs. ok (r ∷ rs)

    module _ (view : Text) (call : Text → Reply) where
      -- The body of the loop: redact, view, prompt, call, score.
      unfoldable pub run_alert : Fields → Result (ScoreRow × AuditRecord)
      run_alert alert = do
        aid ← alert_id_of alert
        let user = build_user_prompt (obj (apply_view (redact_fields [] alert [] none).0 view))
        let (raw, failed) = raw_of (call user)
        score_response aid user raw failed

      unfoldable pub run_alerts : List Fields → Result (List ScoreRow × List AuditRecord)
      run_alerts [] = ok ([], [])
      run_alerts (a ∷ alerts) =
          run_alert a >>= λ (r, rec). run_alerts alerts >>= λ (rs, recs). ok (r ∷ rs, rec ∷ recs)

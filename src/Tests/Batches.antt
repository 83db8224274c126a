-- ===== src/Tests/Batches.antt =====
-- A run over a corpus of two alerts, and its rebuild.
use alertmind.Prelude.{◌≡◌, ◌≢◌, refl, true, false, List, [], ◌∷◌, All, is_empty, pos, none}
use alertmind.Text.{Text, text, is_one_of}
use alertmind.Platform.{Platform, plain}
use alertmind.Json.{Json, null, str, arr, obj, nil, cons, Fields, end, field}
use alertmind.Json.Parsed.{Parsed, Pairs, Elems}
use alertmind.Result.{ok}
use alertmind.Assistant.Answer.{Reply, answered}
use alertmind.Assistant.Batch.{AuditRecord, ScoreRow, valid, call_error, row, run_alerts, rebuild}
use alertmind.Assistant.Batch.Rebuild.{AllAnswered, rebuild-run_alerts}
use alertmind.Assistant.Batch.Selection.{requested, available, is_requested, select_alerts}
use alertmind.Assistant.Batch.Selection.Requested.{select_alerts-requested}
use alertmind.Assistant.Scoring.{grade}
use alertmind.Assistant.Prompts.{build_user_prompt}
use alertmind.Assistant.Views.{apply_view}
use alertmind.Assistant.Redact.{redact_fields}

abbrev alert : Text → Fields
alert id = field (text "alert_id") (str id) (field (text "exe") (str (text "cron")) end)

abbrev corpus : List Fields
corpus = alert (text "A01") ∷ alert (text "A02") ∷ []

ids_given : is_empty (text "A02, ") ≡ false
unfolding text
ids_given = refl

selects : select_alerts corpus (text "A02, ") (pos 0) ≡ ok (alert (text "A02") ∷ [])
unfolding select_alerts alertmind.Result.require text requested alertmind.Text.split_on
    alertmind.Text.strip alertmind.Json.Dict.lookup alertmind.Text.text_eq available is_requested
selects = refl

select_alerts-requested_example :
    All (λ id. is_one_of (available (alert (text "A02") ∷ [])) id ≡ true) (requested (text "A02, "))
    × All (λ a. is_requested (requested (text "A02, ")) a ≡ true) (alert (text "A02") ∷ [])
select_alerts-requested_example =
    select_alerts-requested corpus (alert (text "A02") ∷ []) (text "A02, ") (pos 0) ids_given
      selects

-- A decoder that reads one accepted answer.
abbrev pair : Text → Parsed → Pairs → Pairs
pair k v ps = Pairs.pair k v ps

abbrev reading : Platform
reading = record plain {
  decode = λ _. Parsed.obj (
      pair (text "summary") (Parsed.str (text "cron job")) (
        pair (text "attack_technique_id") (Parsed.str (text "T1053")) (
          pair (text "disposition_suggestion") (Parsed.str (text "likely_true_positive")) (
            pair (text "confidence") (Parsed.str (text "low")) (
              pair (text "investigation_queries")
                (Parsed.arr (Elems.cons (Parsed.str (text "q")) Elems.nil))
                (pair (text "draft_user_message") (Parsed.str (text "hello"))
                  (pair (text "caveats") (Parsed.str (text "none")) Pairs.end)))))));
}

abbrev model : Text → Reply
model _ = answered (text "{1}") (obj end)

abbrev truth : List (Text × Text)
truth = (text "A02", text "T1053.003") ∷ []

abbrev marked : Fields
marked = field (text "summary") (arr (cons (str (text "cron job")) nil)) (
    field (text "attack_technique_id") (str (text "T1053")) (
      field (text "disposition_suggestion") (str (text "likely_true_positive")) (
        field (text "confidence") (str (text "low")) (
          field (text "investigation_queries") (arr (cons (str (text "q")) nil)) (
            field (text "draft_user_message") (str (text "hello")) (
              field (text "caveats") (str (text "none")) (
                field (text "_alert_id") (str (text "A02"))
                  (field (text "analyst_review_required") (Json.bool true) end))))))))

abbrev rows : List (ScoreRow ⦃p = reading⦄)
rows =
    row ⦃p = reading⦄ (str (text "A02")) (text "T1053.003") marked
      (grade ⦃p = reading⦄ (text "T1053.003") (text "T1053") (text "likely_true_positive")) true
    ∷ []

abbrev audit : List AuditRecord
audit =
    record {
      alert_id = str (text "A02");
      redacted_prompt = build_user_prompt ⦃p = reading⦄ (
          obj (
            apply_view ⦃p = reading⦄ (redact_fields ⦃p = reading⦄ [] (alert (text "A02")) [] none).0
              (text "evaluation")));
      parse_status = valid;
      schema_errors = [];
      parsed_output = marked;
      raw_response = text "{1}";
    }
    ∷ []

runs_once :
    run_alerts ⦃p = reading⦄ truth (text "evaluation") model (alert (text "A02") ∷ [])
    ≡ ok (rows, audit)
unfolding run_alerts alertmind.Assistant.Batch.run_alert alertmind.Assistant.Batch.alert_id_of
    alertmind.Json.Dict.lookup alertmind.Text.text_eq text alertmind.Assistant.Batch.score_response
    alertmind.Assistant.Schema.validate_output alertmind.Assistant.Answer.parse_response
    alertmind.Assistant.Batch.raw_of alertmind.Json.Dict.insert alertmind.Assistant.Batch.with_marks
    alertmind.Assistant.Batch.ground_truth_of alertmind.Assistant.Scoring.score_alert
    alertmind.Assistant.Batch.ground_of alertmind.Assistant.Batch.status_of
    alertmind.Assistant.Schema.allowed alertmind.Assistant.Schema.required
    alertmind.Assistant.Schema.dispositions alertmind.Assistant.Schema.confidences
    alertmind.Platform.is_decimal
runs_once = refl

valid_differs : valid ≢ call_error
valid_differs h = absurd (cc)

all_answered : AllAnswered audit
unfolding AllAnswered
all_answered = (valid_differs, tt)

rebuild-run_alerts_example : rebuild ⦃p = reading⦄ truth audit ≡ ok rows
rebuild-run_alerts_example =
    rebuild-run_alerts ⦃p = reading⦄ truth (text "evaluation") model (alert (text "A02") ∷ []) rows
      audit runs_once all_answered

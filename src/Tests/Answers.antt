-- ===== src/Tests/Answers.antt =====
-- Answers through schema.py and scoring.py.
use alertmind.Prelude.{
  ◌≡◌, ◌≢◌, ◌↔◌, refl, true, ◌&&◌, List, [], ◌∷◌, if◌then◌else◌, map, is_empty, ◌≤◌,
}
use alertmind.Text.{text, text_eq, is_one_of, strip}
use alertmind.Platform.{Platform, plain, lower}
use alertmind.Json.{Json, null, str, arr, obj, nil, cons, Fields, end, field}
use alertmind.Json.Dict.{get}
use alertmind.Result.{ok, err}
use alertmind.Assistant.Schema.{SchemaError, validate_output}
use alertmind.Assistant.Schema.Checks.{IsAnswer}
use alertmind.Assistant.Schema.Accept.{OnlyAllowed, validate_output-IsAnswer}
use alertmind.Assistant.Schema.Formal.{MeetsSchema, IsNullableText, validate_output-MeetsSchema}
use alertmind.Assistant.Scoring.{
  Score, grade, score_alert, aggregate, is_benign, codes, base, meets, attack_dispositions,
  likely_benign,
}
use alertmind.Assistant.Scoring.Grade.{grade-overall, aggregate-le, AreScored}

abbrev answer_with : Json → Fields
answer_with confidence = field (text "summary") (str (text "cron job")) (
    field (text "attack_technique_id") (str (text "T1053.003")) (
      field (text "disposition_suggestion") (str (text "likely_true_positive")) (
        field (text "confidence") confidence (
          field (text "investigation_queries") (arr (cons (str (text "q")) nil)) (
            field (text "draft_user_message") (str (text "hello"))
              (field (text "caveats") (str (text "none")) end))))))

abbrev answer : Fields
answer = answer_with (str (text "low"))

abbrev normalized : Fields
normalized = field (text "summary") (arr (cons (str (text "cron job")) nil)) (
    field (text "attack_technique_id") (str (text "T1053.003")) (
      field (text "disposition_suggestion") (str (text "likely_true_positive")) (
        field (text "confidence") (str (text "low")) (
          field (text "investigation_queries") (arr (cons (str (text "q")) nil)) (
            field (text "draft_user_message") (str (text "hello"))
              (field (text "caveats") (str (text "none")) end))))))

accepts : validate_output ⦃p = plain⦄ (obj answer) ≡ ok (true, [], obj normalized)
unfolding validate_output alertmind.Json.Dict.lookup text_eq alertmind.Json.Dict.insert
    alertmind.Assistant.Schema.allowed alertmind.Assistant.Schema.required
    alertmind.Platform.is_decimal alertmind.Assistant.Schema.dispositions
    alertmind.Assistant.Schema.confidences
accepts = refl

validate_output-IsAnswer_example :
    (◌≡◌ {A = List SchemaError} [] [])
    × OnlyAllowed ⦃p = plain⦄ answer
    × ((q : Fields) × (obj normalized ≡ obj q) × IsAnswer ⦃p = plain⦄ q)
validate_output-IsAnswer_example =
    validate_output-IsAnswer ⦃p = plain⦄ answer [] (obj normalized) accepts

accepts_as_is : validate_output ⦃p = plain⦄ (obj normalized) ≡ ok (true, [], obj normalized)
unfolding validate_output alertmind.Json.Dict.lookup text_eq alertmind.Assistant.Schema.allowed
    alertmind.Assistant.Schema.required alertmind.Platform.is_decimal
    alertmind.Assistant.Schema.dispositions alertmind.Assistant.Schema.confidences
accepts_as_is = refl

validate_output-MeetsSchema_example : MeetsSchema ⦃p = plain⦄ normalized ↔ (
    (validate_output ⦃p = plain⦄ (obj normalized) ≡ ok (true, [], obj normalized))
    × (get (text "attack_technique_id") normalized ≢ str [])
    × IsNullableText (text "attack_technique_name") normalized
    × (get (text "investigation_queries") normalized ≢ null))
validate_output-MeetsSchema_example = validate_output-MeetsSchema ⦃p = plain⦄ normalized

-- A confidence that is a list makes the validator raise.
raises : validate_output ⦃p = plain⦄ (obj (answer_with (arr nil))) ≡ err "TypeError"
unfolding validate_output alertmind.Json.Dict.lookup text_eq alertmind.Json.Dict.insert
raises = refl

grade-overall_example :
    (grade ⦃p = plain⦄
      (text "T1053.003")
      (text "T1053")
      (text "needs_investigation")).overall_correct
    ≡ (if is_benign ⦃p = plain⦄ (text "T1053.003")
        then text_eq
            (lower ⦃p = plain⦄ (strip (text "needs_investigation")))
            (likely_benign ⦃p = plain⦄)
          && is_empty (codes ⦃p = plain⦄ (text "T1053"))
        else is_one_of
            (attack_dispositions ⦃p = plain⦄)
            (lower ⦃p = plain⦄ (strip (text "needs_investigation")))
          && meets ⦃p = plain⦄
              (map (base ⦃p = plain⦄) (codes ⦃p = plain⦄ (text "T1053")))
              (map (base ⦃p = plain⦄) (codes ⦃p = plain⦄ (strip (text "T1053.003")))))
grade-overall_example =
    grade-overall ⦃p = plain⦄ (text "T1053.003") (text "T1053") (text "needs_investigation")

abbrev right_score : Score ⦃p = plain⦄
right_score = grade ⦃p = plain⦄ (text "T1053") (text "T1053.003") (text "likely_true_positive")

abbrev rows : List (Score ⦃p = plain⦄)
rows = right_score ∷ []

rows_scored : AreScored ⦃p = plain⦄ rows
unfolding AreScored score_alert alertmind.Json.Dict.lookup text_eq
rows_scored = ((text "T1053", obj answer, refl), tt)

aggregate-le_example :
    ((aggregate ⦃p = plain⦄ rows).overall_correct
      ≤ (aggregate ⦃p = plain⦄ rows).disposition_correct)
    × (((aggregate ⦃p = plain⦄ rows).overall_correct
          ≤ (aggregate ⦃p = plain⦄ rows).technique_relaxed_correct)
        × (((aggregate ⦃p = plain⦄ rows).overall_correct
              ≤ (aggregate ⦃p = plain⦄ rows).response_consistent)
            × (((aggregate ⦃p = plain⦄ rows).technique_exact_correct
                  ≤ (aggregate ⦃p = plain⦄ rows).technique_relaxed_correct)
                × (((aggregate ⦃p = plain⦄ rows).technique_relaxed_correct
                      ≤ (aggregate ⦃p = plain⦄ rows).n)
                    × (((aggregate ⦃p = plain⦄ rows).disposition_correct
                          ≤ (aggregate ⦃p = plain⦄ rows).n)
                        × ((aggregate ⦃p = plain⦄ rows).response_consistent
                            ≤ (aggregate ⦃p = plain⦄ rows).n))))))
aggregate-le_example = aggregate-le ⦃p = plain⦄ rows rows_scored

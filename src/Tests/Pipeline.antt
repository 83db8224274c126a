-- ===== src/Tests/Pipeline.antt =====
-- Runs of the pipeline of paste_core.py.
use alertmind.Prelude.{ℕ, ◌≡◌, ◌↔◌, ◌≤◌, refl, true, false, List, [], none, inr, if◌then◌else◌}
use alertmind.Text.{Text, text, text_eq}
use alertmind.Platform.{Platform, plain}
use alertmind.Json.{Json, null, str, obj, Fields, end, field}
use alertmind.Json.Parsed.{Parsed, Pairs}
use alertmind.Assistant.Answer.{Reply, answered}
use alertmind.Assistant.Redact.Independent.{hide_fields}
use alertmind.Assistant.Paste.Input.{ParseMode, json_object, parse_input, check_limits, nodes}
use alertmind.Assistant.Paste.Endpoint.{Surroundings}
use alertmind.Assistant.Paste.{PasteResult, Request, Sent, prepare, decide, run_paste_pipeline}
use alertmind.Assistant.Paste.Limits.{check_limits_iff, height}
use alertmind.Assistant.Paste.Gates.{IsPrepared, IsGated}
use alertmind.Assistant.Paste.Sending.{run_paste_pipeline-IsGated, run_paste_pipeline-hide}

-- A decoder that knows two texts.
abbrev one_secret : Fields
one_secret =
    field (text "user") (str (text "kim")) (field (text "password") (str (text "hunter2")) end)

abbrev other_secret : Fields
other_secret = field (text "user") (str (text "kim")) (field (text "password") null end)

abbrev decoder : Platform
decoder = record plain {
  decode = λ s.
      if text_eq s (text "{1}")
      then Parsed.obj (
          Pairs.pair (text "user") (Parsed.str (text "kim"))
            (Pairs.pair (text "password") (Parsed.str (text "hunter2")) Pairs.end))
      else Parsed.obj (
          Pairs.pair (text "user") (Parsed.str (text "kim"))
            (Pairs.pair (text "password") Parsed.null Pairs.end));
}

abbrev offline : Surroundings
offline = record {
  env = λ _. none;
  split_url = λ _. none;
  join_url = λ scheme host path. host;
  digits_value = λ _. none;
}

abbrev bytes : Text → List ℕ
bytes s = s

abbrev echo : Sent → Reply
echo s = answered s.user (obj end)

abbrev request : Request
request = record {
  raw_text = text "{1}";
  provider = text "mock";
  model = text "mock";
  view = text "operational";
  prompt_name = text "baseline";
  consent = false;
  allow_call = true;
}

abbrev other_request : Request
other_request = record request { raw_text = text "{2}" }

abbrev outcome : PasteResult × List Sent
outcome =
    decide ⦃p = decoder⦄ offline bytes [] echo request (
      prepare ⦃p = decoder⦄ offline bytes [] request (text "t0") (text "t1") one_secret json_object)

abbrev other_outcome : PasteResult × List Sent
other_outcome = decide ⦃p = decoder⦄ offline bytes [] echo other_request (
    prepare ⦃p = decoder⦄ offline bytes [] other_request (text "t2") (text "t3") other_secret
      json_object)

input : parse_input ⦃p = decoder⦄ request.raw_text ≡ inr (one_secret, json_object)
unfolding parse_input text_eq alertmind.Json.Dict.insert
input = refl

other_input : parse_input ⦃p = decoder⦄ other_request.raw_text ≡ inr (other_secret, json_object)
unfolding parse_input text_eq alertmind.Json.Dict.insert
other_input = refl

same_but_secrets : hide_fields ⦃p = decoder⦄ one_secret ≡ hide_fields ⦃p = decoder⦄ other_secret
unfolding hide_fields alertmind.Assistant.Redact.is_sensitive_key alertmind.Regex.search text
    alertmind.Assistant.Redact.Rules.sensitive_keys
same_but_secrets = refl

runs :
    run_paste_pipeline ⦃p = decoder⦄ offline bytes [] echo request (text "t0") (text "t1")
    ≡ inr outcome
unfolding run_paste_pipeline parse_input check_limits text_eq alertmind.Json.Dict.insert
runs = refl

other_runs :
    run_paste_pipeline ⦃p = decoder⦄ offline bytes [] echo other_request (text "t2") (text "t3")
    ≡ inr other_outcome
unfolding run_paste_pipeline parse_input check_limits text_eq alertmind.Json.Dict.insert
other_runs = refl

run_paste_pipeline-IsGated_example :
    (alert : Fields) × (mode : ParseMode) × (parse_input ⦃p = decoder⦄ request.raw_text
      ≡ inr (alert, mode))
    × IsPrepared ⦃p = decoder⦄ offline bytes [] echo request alert outcome.0
    × IsGated ⦃p = decoder⦄ offline bytes [] echo request outcome.0 outcome.1
run_paste_pipeline-IsGated_example =
    run_paste_pipeline-IsGated ⦃p = decoder⦄ offline bytes [] echo request (text "t0") (text "t1")
      outcome.0 outcome.1 runs

run_paste_pipeline-hide_example : outcome.1 ≡ other_outcome.1
run_paste_pipeline-hide_example =
    run_paste_pipeline-hide ⦃p = decoder⦄ offline bytes [] echo request (text "{2}") (text "t0")
      (text "t1") (text "t2") (text "t3") outcome.0 other_outcome.0 outcome.1 other_outcome.1
      one_secret other_secret json_object json_object input other_input same_but_secrets runs
      other_runs

check_limits_iff_example :
    (check_limits one_secret ≡ none)
    ↔ ((height (obj one_secret) ≤ 20) × (nodes (obj one_secret) ≤ 10000))
check_limits_iff_example = check_limits_iff one_secret

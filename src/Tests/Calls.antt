-- ===== src/Tests/Calls.antt =====
-- The client of the providers: the evidence of a call, and the settings that a process is given.
use alertmind.Prelude.{
  ℤ, pos, true, false, ◌≡◌, refl, ◌⊎◌, ◌↔◌, List, [], ◌∷◌, none, some, is_empty,
}
use alertmind.Text.{Text, text, text_eq, strip}
use alertmind.Text.Trim.{rstrip_char}
use alertmind.Platform.{Platform, plain}
use alertmind.Json.{Json, null, int, str, obj, Fields, end, field}
use alertmind.Json.Dict.{lookup}
use alertmind.Json.Parsed.{Parsed, Pairs}
use alertmind.Assistant.Post.{Attempt, Response, responded}
use alertmind.Assistant.Llm.Error.{Outcome, done, failed, provider_error, bad_shape}
use alertmind.Assistant.Llm.Settings.{
  Settings, Cast, Bounds, int_cast, int_lt, env_or, number_env, max_tokens,
}
use alertmind.Assistant.Llm.Settings.Range.{InRange, number_env_iff}
use alertmind.Assistant.Llm.EnvFile.{layered, loaded_value, load_env_file, load_env_file-layered}
use alertmind.Assistant.Llm.Override.{timeout_override, timeout_override-restores}
use alertmind.Assistant.Llm.Exchange.{Network, HttpRequest, exchange}
use alertmind.Assistant.Llm.Evidence.{Evidenced, exchange-Evidenced}
use alertmind.Tests.Clients.{remote, around, settings}

-- A network on which every request is answered with an empty completion.
abbrev silent : Network
silent request attempt = responded (record {
  status = 200;
  body = Parsed.obj (Pairs.pair (text "id") (Parsed.str (text "r1")) Pairs.end);
})

exchange-Evidenced_example : Evidenced (field (text "provider") (str (text "ollama")) end) (
    exchange ⦃p = plain⦄ settings silent
      (text "u")
      (text "k")
      end
      (field (text "provider") (str (text "ollama")) end))
exchange-Evidenced_example =
    exchange-Evidenced (field (text "provider") (str (text "ollama")) end) ⦃p = plain⦄ settings
      silent (text "u") (text "k") end

empty_completion :
    exchange ⦃p = plain⦄ settings silent (text "u") (text "k") end end
    ≡ failed (
        provider_error bad_shape (
          obj (
            field (text "response_id") (str (text "r1")) (
              field
                (text "usage")
                (obj (
                  field (text "prompt_tokens") null (
                    field (text "completion_tokens") null (
                      field
                        (text "total_tokens")
                        null
                        (field (text "reasoning_tokens") null end)))))
                (field (text "request_config") (obj end) end)))))
unfolding exchange alertmind.Assistant.Llm.Exchange.with_evidence
    alertmind.Assistant.Llm.Exchange.send alertmind.Assistant.Llm.Settings.retries strip text_eq
    text alertmind.Assistant.Llm.Settings.timeout_seconds
    alertmind.Assistant.Llm.Exchange.response_of alertmind.Assistant.Post.post
    alertmind.Assistant.Post.post_from alertmind.Assistant.Post.is_transient
    alertmind.Assistant.Post.is_retryable alertmind.Assistant.Post.settle
    alertmind.Assistant.Post.is_ok alertmind.Assistant.Llm.Completion.completion_meta
    alertmind.Json.Parsed.loads_plain alertmind.Assistant.Llm.Completion.completion_text
    alertmind.Assistant.Llm.Completion.dict_meta alertmind.Assistant.Llm.Completion.dict_or_empty
    alertmind.Assistant.Llm.Completion.drop_nulls alertmind.Assistant.Llm.Completion.first_choice
    alertmind.Assistant.Llm.Completion.first_item alertmind.Assistant.Llm.Completion.item_at
    alertmind.Assistant.Llm.Completion.json_of alertmind.Assistant.Llm.Completion.usage_of
    alertmind.Assistant.Llm.Exchange.with_runtime_evidence alertmind.Json.Dict.insert lookup
    alertmind.Json.truthy
empty_completion = refl

abbrev env_lines : List Text
env_lines = text "# keys" ∷ text "OPENAI_BASE_URL=http://other/v1" ∷ text " A = 'b' " ∷ []

load_env_file-layered_example :
    (load_env_file (some env_lines) around.env).0 (text "A")
    ≡ layered
        (around.env (text "A"))
        (loaded_value (lookup (text "A") (load_env_file (some env_lines) around.env).1))
load_env_file-layered_example = load_env_file-layered around.env (some env_lines) (text "A")

loads_unquoted : (load_env_file (some env_lines) around.env).0 (text "A") ≡ some (text "b")
unfolding load_env_file strip text alertmind.Text.starts_with alertmind.Text.Trim.partition
    alertmind.Assistant.Llm.EnvFile.set_default text_eq alertmind.Assistant.Llm.EnvFile.unquoted
loads_unquoted = refl

shell_wins : (load_env_file (some env_lines) around.env).0 (text "OPENAI_BASE_URL") ≡ some remote
unfolding load_env_file strip text alertmind.Text.starts_with alertmind.Text.Trim.partition
    alertmind.Assistant.Llm.EnvFile.set_default text_eq
shell_wins = refl

abbrev ping : ℤ → Settings → Outcome ℤ × Settings
ping seconds s = (done seconds, s)

timeout_override-restores_example :
    ((timeout_override ⦃p = plain⦄ ping (some (pos 20)) settings).1.timeout_override ≡ none)
    × ((n : ℤ)
        → some (pos 20) ≡ some n
        → int_lt n (pos 1) ≡ false
        → (timeout_override ⦃p = plain⦄ ping (some (pos 20)) settings).0 ≡ done n)
timeout_override-restores_example =
    timeout_override-restores ⦃p = plain⦄ ping (some (pos 20)) settings

abbrev tuned : Settings
tuned = record settings { io = record around { env = λ name. some (text " 2_048 ") } }

abbrev token_bounds : Bounds ℤ
token_bounds = record {
  default = some (pos 1024);
  minimum = some (pos 1);
  maximum = none;
  minimum_exclusive = false;
}

number_env_iff_example :
    (number_env (int_cast ⦃p = plain⦄) (text "ALERTMIND_MAX_TOKENS") token_bounds tuned
      ≡ done (some (pos 2048)))
    ↔ (((is_empty (strip (env_or tuned (text "ALERTMIND_MAX_TOKENS") [])) ≡ true)
          × (some (pos 1024) ≡ some (pos 2048)))
        ⊎ ((is_empty (strip (env_or tuned (text "ALERTMIND_MAX_TOKENS") [])) ≡ false)
            × ((int_cast ⦃p = plain⦄).read (strip (env_or tuned (text "ALERTMIND_MAX_TOKENS") []))
                ≡ some (pos 2048))
            × InRange (int_cast ⦃p = plain⦄) (text "ALERTMIND_MAX_TOKENS") token_bounds (pos 2048)))
number_env_iff_example =
    number_env_iff (int_cast ⦃p = plain⦄) (text "ALERTMIND_MAX_TOKENS") token_bounds tuned
      (pos 2048)

reads_tokens : max_tokens ⦃p = plain⦄ tuned ≡ done (pos 2048)
unfolding max_tokens strip text alertmind.Assistant.Llm.Settings.read_int
    alertmind.Platform.is_decimal int_lt
reads_tokens = refl

-- ===== src/Assistant/Llm/Openai.antt =====
-- llm.py: `_openai`.
pub mod Config
use alertmind.Prelude.{
  or_else, ℕ, ℤ, pos, negsuc, Bool, true, false, not, ◌&&◌, ◌||◌, List, [], ◌∷◌, ◌++◌, Option, none,
  some, is_empty, if◌then◌else◌,
}
use alertmind.Text.{Text, text, text_eq, strip}
use alertmind.Platform.{Platform}
use alertmind.Json.{Json, null, bool, int, float, str, arr, obj, of_items, Fields, end, field}
use alertmind.Json.Dict.{lookup, insert}
use alertmind.Assistant.Post.{
  Attempt, PostEnd, Response, returned, timeout_error, connection_error, other_error, unreachable,
  http_error, post,
}
use alertmind.Assistant.Schema.Provider.{ollama_json_schema}
use alertmind.Assistant.Llm.Error.{
  LlmError, key_missing, unknown_provider, requests_missing, post_failed, bad_shape, provider_error,
  Outcome, done, failed, ◌>>=◌,
}
use alertmind.Assistant.Llm.Settings.{
  Settings, env_or, Bounds, int_cast, float_cast, number_env, env_flag, timeout_seconds, max_tokens,
  retries,
}
use alertmind.Assistant.Llm.Endpoints.{
  RequestInfo, uses_reasoning_effort, openai_info, ollama_info, provider_request_info,
}
use alertmind.Assistant.Llm.Completion.{
  json_of, completion_meta, completion_text, anthropic_meta, anthropic_text,
}
use alertmind.Assistant.Llm.Exchange.{
  HttpRequest, Network, with_evidence, with_runtime_evidence, messages_of, api_key, request_config,
  send, exchange,
}

unfoldable pub is_reasoning : ⦃p : Platform⦄ → RequestInfo → Text → Bool
is_reasoning info model = info.official_openai && uses_reasoning_effort model

-- The parameters that `_openai` adds to the model and the messages.
unfoldable pub openai_parameters : RequestInfo → Bool → Text → ℤ → Fields
openai_parameters info reasoning effort budget =
    if info.official_openai
    then field (text "max_completion_tokens") (int budget) (
        if reasoning
        then (if is_empty effort then end else field (text "reasoning_effort") (str effort) end)
        else field (text "temperature") (int (pos 0)) end)
    else field (text "temperature") (int (pos 0)) (field (text "max_tokens") (int budget) end)

unfoldable pub openai_payload : Text → Text → Text → RequestInfo → Bool → Text → ℤ → Fields
openai_payload system user model info reasoning effort budget = field (text "model") (str model) (
    field (text "messages") (messages_of system user)
      (openai_parameters info reasoning effort budget))

unfoldable pub openai_config : Text → RequestInfo → Bool → ℤ → Fields → Fields
openai_config model info reasoning budget payload = field (text "provider") (str (text "openai")) (
    field (text "model_requested") (str model) (
      field (text "endpoint") (str info.url) (
        field (text "official_openai") (bool info.official_openai) (
          field (text "reasoning_model") (bool reasoning) (
            field (text "token_parameter") (str info.token_parameter) (
              field (text "token_budget") (int budget) (
                field (text "reasoning_effort")
                  (if reasoning
                    then or_else (lookup (text "reasoning_effort") payload)
                        (str (text "unset (vendor default)"))
                    else str (text "n/a (non-reasoning model or third-party endpoint)"))
                  (field (text "temperature")
                    (or_else (lookup (text "temperature") payload)
                      (str (text "omitted (unsupported on official OpenAI reasoning models)")))
                    end))))))))

module _ ⦃p : Platform⦄ (s : Settings) (network : Network) where
  -- `_openai`
  unfoldable pub openai : Text → Text → Text → Outcome (Json × Fields)
  openai system user model = do
    info ← openai_info s model
    key ← api_key s (text "OPENAI_API_KEY")
    budget ← max_tokens s
    let effort = strip (env_or s (text "ALERTMIND_OPENAI_REASONING_EFFORT") s.imported_effort)
    let reasoning = is_reasoning info model
    let payload = openai_payload system user model info reasoning effort budget
    exchange s network info.url key payload (openai_config model info reasoning budget payload)

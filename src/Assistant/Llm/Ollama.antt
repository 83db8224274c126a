-- ===== src/Assistant/Llm/Ollama.antt =====
-- llm.py: `_ollama`.
pub mod Config
pub mod Sampling
use alertmind.Prelude.{
  or_else, ℕ, ℤ, pos, negsuc, Bool, true, false, not, ◌&&◌, ◌||◌, List, [], ◌∷◌, ◌++◌, Option, none,
  some, is_empty, if◌then◌else◌,
}
use alertmind.Text.{Text, text, text_eq, strip}
use alertmind.Platform.{Platform}
use alertmind.Json.{Json, null, bool, int, float, str, arr, obj, of_items, Fields, end, field}
use alertmind.Json.Dict.{lookup, insert}
use alertmind.Assistant.Post.{
  Attempt, PostEnd, Response, returned, timeout_error, connection_error, other_error, unreachable,
  http_error, post,
}
use alertmind.Assistant.Schema.Provider.{ollama_json_schema}
use alertmind.Assistant.Llm.Error.{
  LlmError, key_missing, unknown_provider, requests_missing, post_failed, bad_shape, provider_error,
  Outcome, done, failed, ◌>>=◌,
}
use alertmind.Assistant.Llm.Settings.{
  Settings, env_or, Bounds, int_cast, float_cast, number_env, env_flag, timeout_seconds, max_tokens,
  retries,
}
use alertmind.Assistant.Llm.Endpoints.{
  RequestInfo, uses_reasoning_effort, openai_info, ollama_info, provider_request_info,
}
use alertmind.Assistant.Llm.Completion.{
  json_of, completion_meta, completion_text, anthropic_meta, anthropic_text,
}
use alertmind.Assistant.Llm.Exchange.{
  HttpRequest, Network, with_evidence, with_runtime_evidence, messages_of, api_key, request_config,
  send, exchange,
}

-- What `_ollama` reads from the environment besides the endpoint.
pub record OllamaOptions : Type 0 where
  pub budget : ℤ
  pub temperature : ℕ
  pub top_p : Option ℕ
  pub seed : Option ℤ
  pub structured_outputs : Bool

-- The bits of the floats 1.0 and 2.0.
abbrev pub float_one : ℕ
float_one = 0x3FF0000000000000

abbrev pub float_two : ℕ
float_two = 0x4000000000000000

abbrev pub temperature_bounds : Bounds ℕ
temperature_bounds = record {
  default = some 0;
  minimum = some 0;
  maximum = some float_two;
  minimum_exclusive = false;
}

abbrev pub top_p_bounds : Bounds ℕ
top_p_bounds = record {
  default = none;
  minimum = some 0;
  maximum = some float_one;
  minimum_exclusive = true;
}

abbrev pub seed_bounds : Bounds ℤ
seed_bounds = record {
  default = none;
  minimum = some (pos 0);
  maximum = none;
  minimum_exclusive = false;
}

unfoldable pub ollama_options : ⦃p : Platform⦄ → Settings → Outcome OllamaOptions
ollama_options s = do
  budget ← max_tokens s
  temperature ← number_env float_cast (text "ALERTMIND_OLLAMA_TEMPERATURE") temperature_bounds s
  top_p ← number_env float_cast (text "ALERTMIND_OLLAMA_TOP_P") top_p_bounds s
  seed ← number_env int_cast (text "ALERTMIND_OLLAMA_SEED") seed_bounds s
  structured ← env_flag (text "ALERTMIND_OLLAMA_STRUCTURED_OUTPUTS") false s
  done (record {
    budget = budget;
    temperature = or_else temperature 0;
    top_p = top_p;
    seed = seed;
    structured_outputs = structured;
  })

-- `payload[k] = v` where there is a value
abbrev with_field {ℓ} : {A : Type ℓ} → Text → (A → Json) → Option A → Fields → Fields
with_field k f none fs = fs
with_field k f (some a) fs = insert k (f a) fs

unfoldable pub response_format : Json
response_format = obj (
    field (text "type") (str (text "json_schema")) (
      field (text "json_schema")
        (obj (
          field (text "name") (str (text "alertmind_triage")) (
            field (text "strict") (bool true)
              (field (text "schema") (obj ollama_json_schema) end))))
        end))

unfoldable pub ollama_payload : Text → Text → Text → OllamaOptions → Fields
ollama_payload system user model o =
    let basic = field (text "model") (str model) (
      field (text "temperature") (float o.temperature) (
        field (text "max_tokens") (int o.budget)
          (field (text "messages") (messages_of system user) end))) in
    let sampled =
      with_field (text "seed") int o.seed (with_field (text "top_p") float o.top_p basic) in
    if o.structured_outputs
    then insert (text "response_format") response_format sampled
    else sampled

abbrev shown_option {ℓ} : {A : Type ℓ} → (A → Json) → Text → Option A → Json
shown_option f absent none = str absent
shown_option f absent (some a) = f a

unfoldable pub ollama_config : Text → RequestInfo → OllamaOptions → Fields
ollama_config model info o = field (text "provider") (str (text "ollama")) (
    field (text "model_requested") (str model) (
      field (text "endpoint") (str info.url) (
        field (text "token_parameter") (str info.token_parameter) (
          field (text "token_budget") (int o.budget) (
            field (text "temperature") (float o.temperature) (
              field (text "top_p") (shown_option float (text "omitted (model default)") o.top_p) (
                field (text "seed") (shown_option int (text "omitted") o.seed) (
                  field (text "top_k") (str (text "not sent (model default)")) (
                    field (text "repeat_penalty") (str (text "not sent (model default)")) (
                      field (text "reasoning_control") (str (text "omitted (model default)")) (
                        field (text "structured_outputs") (bool o.structured_outputs) (
                          field (text "response_format")
                            (str (
                              if o.structured_outputs
                              then text "json_schema_ollama_compatible"
                              else text "none"))
                            (field (text "provider_schema_omissions")
                              (arr (
                                of_items (
                                  if o.structured_outputs
                                  then str (text "attack_technique_id.pattern") ∷ []
                                  else [])))
                              (field (text "runtime_attack_id_validation") (bool true)
                                end))))))))))))))

module _ ⦃p : Platform⦄ (s : Settings) (network : Network) where
  -- `_ollama`
  unfoldable pub ollama : Text → Text → Text → Outcome (Json × Fields)
  ollama system user model = do
    info ← ollama_info s model
    options ← ollama_options s
    exchange s network info.url (env_or s (text "OLLAMA_API_KEY") (text "ollama"))
        (ollama_payload system user model options) (ollama_config model info options)

-- ===== src/Assistant/Llm/Endpoints.antt =====
-- llm.py: the endpoint and the request family of a provider.
use alertmind.Prelude.{Bool, false, ◌||◌, ◌++◌, none, some, if◌then◌else◌}
use alertmind.Text.{Text, text, text_eq, starts_with, ends_with}
use alertmind.Text.Trim.{rstrip_char}
use alertmind.Platform.{Platform, lower}
use alertmind.Assistant.Llm.Error.{
  not_a_root, bad_url, no_request_info, Outcome, done, failed, ◌>>=◌,
}
use alertmind.Assistant.Llm.Settings.{Settings, env_or}

pub record RequestInfo : Type 0 where
  pub url : Text
  pub base : Text
  pub official_openai : Bool
  pub token_parameter : Text
  pub model : Text

-- `_api_root`
unfoldable pub api_root : Text → Text → Outcome Text
api_root base variable =
    let root = rstrip_char b'/' base in
    if ends_with (text "/chat/completions") root || ends_with (text "/responses") root
    then failed (not_a_root variable root)
    else done root

-- `max_completion_tokens` for the official endpoint
unfoldable pub token_parameter_of : Bool → Text
token_parameter_of official = if official then text "max_completion_tokens" else text "max_tokens"

abbrev pub info_of : Text → Text → Bool → RequestInfo
info_of base model official = record {
  url = base ++ text "/chat/completions";
  base = base;
  official_openai = official;
  token_parameter = token_parameter_of official;
  model = model;
}

-- The variables that a provider's base is read from.
unfoldable pub openai_base : Settings → Text
openai_base s = env_or s (text "OPENAI_BASE_URL") (text "https://api.openai.com/v1")

unfoldable pub ollama_base : Settings → Text
ollama_base s =
    env_or s (text "OLLAMA_BASE_URL")
      (env_or s (text "OPENAI_BASE_URL") (text "http://localhost:11434/v1"))

module _ ⦃p : Platform⦄ where
  -- `(urlparse(base).hostname or "").lower() == "api.openai.com"`
  unfoldable pub is_official_openai : Settings → Text → Outcome Bool
  is_official_openai s base = elim (s.io.split_url base) [
    | none ↦ failed bad_url
    | some u ↦ done (text_eq (lower u.host) (text "api.openai.com"))
  ]

  -- `_uses_reasoning_effort`
  unfoldable pub uses_reasoning_effort : Text → Bool
  uses_reasoning_effort model =
      let lowered = lower model in
      starts_with (text "gpt-5") lowered
      || starts_with (text "o1") lowered
      || starts_with (text "o3") lowered
      || starts_with (text "o4") lowered

  unfoldable pub openai_info : Settings → Text → Outcome RequestInfo
  openai_info s model = do
    base ← api_root (openai_base s) (text "OPENAI_BASE_URL")
    official ← is_official_openai s base
    done (info_of base model official)

  unfoldable pub ollama_info : Settings → Text → Outcome RequestInfo
  ollama_info s model = do
    base ← api_root (ollama_base s) (text "OLLAMA_BASE_URL")
    done (info_of base model false)

  unfoldable pub provider_request_info : Settings → Text → Text → Outcome RequestInfo
  provider_request_info s provider model =
      if text_eq provider (text "openai")
      then openai_info s model
      else (if text_eq provider (text "ollama")
          then ollama_info s model
          else failed (no_request_info provider))

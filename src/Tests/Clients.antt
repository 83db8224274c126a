-- ===== src/Tests/Clients.antt =====
-- The client of the providers: settings, endpoints and the evidence of a call.
use alertmind.Prelude.{pos, true, false, ◌≡◌, refl, inl, [], none, some, if◌then◌else◌}
use alertmind.Text.{Text, text, text_eq, strip}
use alertmind.Text.Trim.{rstrip_char}
use alertmind.Platform.{Platform, plain}
use alertmind.Result.{err}
use alertmind.Assistant.Paste.Endpoint.{
  Url, Surroundings, provider_endpoint, requires_egress_consent,
}
use alertmind.Assistant.Llm.Error.{done}
use alertmind.Assistant.Llm.Settings.{
  Settings, Cast, Bounds, int_cast, int_lt, env_or, number_env, max_tokens,
}
use alertmind.Assistant.Llm.Endpoints.{
  RequestInfo, info_of, openai_info, ollama_info, provider_request_info,
}
use alertmind.Assistant.Llm.Openai.{is_reasoning, openai_payload, openai_config}
use alertmind.Assistant.Llm.Openai.Config as OpenaiConfig
use alertmind.Assistant.Llm.Openai.Config.{openai_config-openai_payload}
use alertmind.Assistant.Llm.Ollama.{OllamaOptions, ollama_options}
use alertmind.Assistant.Llm.Ollama.Config as OllamaConfig
use alertmind.Assistant.Llm.Ollama.Sampling.{IsSampling, ollama_options-IsSampling}
use alertmind.Assistant.Llm.Consent.{
  provider_request_info-provider_endpoint, requires_egress_consent-ollama_info,
}

abbrev pub remote : Text
remote = text "https://models.example/v1"

abbrev local_url : Url
local_url = record {
  scheme = text "http";
  host = text "localhost";
  port = err "unused";
  path = text "/v1";
}

abbrev remote_url : Url
remote_url = record {
  scheme = text "https";
  host = text "models.example";
  port = err "unused";
  path = text "/v1";
}

-- A process in which only the hosted provider's base is set.
abbrev pub around : Surroundings
around = record {
  env = λ name. if text_eq name (text "OPENAI_BASE_URL") then some remote else none;
  split_url =
      λ u. if text_eq u (text "http://localhost:11434/v1") then some local_url else some remote_url;
  join_url = λ a b c. c;
  digits_value = λ _. none;
}

abbrev pub settings : Settings
settings = record {
  io = around;
  imported_effort = [];
  timeout_override = none;
  has_requests = true;
}

abbrev fallback_info : RequestInfo
fallback_info = info_of remote (text "m") false

fallback :
    provider_request_info ⦃p = plain⦄ settings (text "ollama") (text "m") ≡ done fallback_info
unfolding provider_request_info text_eq text ollama_info alertmind.Assistant.Llm.Endpoints.api_root
    alertmind.Text.ends_with rstrip_char alertmind.Assistant.Llm.Endpoints.ollama_base
fallback = refl

unset : around.env (text "OLLAMA_BASE_URL") ≡ none
unfolding text_eq text
unset = refl

hosted : around.env (text "OPENAI_BASE_URL") ≡ some remote
unfolding text_eq text
hosted = refl

split : around.split_url (text "http://localhost:11434/v1") ≡ some local_url
unfolding text_eq text
split = refl

requires_egress_consent-ollama_info_example :
    (remote ≡ rstrip_char b'/' remote)
    × (requires_egress_consent ⦃p = plain⦄ around
          (text "ollama")
          (provider_endpoint ⦃p = plain⦄ around (text "ollama"))
        ≡ false)
requires_egress_consent-ollama_info_example =
    requires_egress_consent-ollama_info ⦃p = plain⦄ settings (text "m") local_url remote
      fallback_info unset hosted split refl refl fallback

hosted_info :
    provider_request_info ⦃p = plain⦄ settings (text "openai") (text "m") ≡ done fallback_info
unfolding provider_request_info text_eq text openai_info alertmind.Assistant.Llm.Endpoints.api_root
    alertmind.Text.ends_with rstrip_char alertmind.Assistant.Llm.Endpoints.openai_base
    alertmind.Assistant.Llm.Endpoints.is_official_openai alertmind.Platform.lower
hosted_info = refl

not_local : text_eq (text "openai") (text "ollama") ≡ false
unfolding text_eq text
not_local = refl

provider_request_info-provider_endpoint_example :
    remote ≡ rstrip_char b'/' (provider_endpoint ⦃p = plain⦄ around (text "openai"))
provider_request_info-provider_endpoint_example =
    provider_request_info-provider_endpoint ⦃p = plain⦄ settings (text "m") (text "openai")
      fallback_info hosted_info (inl not_local)

hosted_call : openai_info ⦃p = plain⦄ settings (text "m") ≡ done fallback_info
unfolding openai_info alertmind.Assistant.Llm.Endpoints.api_root alertmind.Text.ends_with
    rstrip_char alertmind.Assistant.Llm.Endpoints.openai_base text
    alertmind.Assistant.Llm.Endpoints.is_official_openai alertmind.Platform.lower
hosted_call = refl

openai_config-openai_payload_example :
    OpenaiConfig.Describes
      (openai_payload
        (text "s")
        (text "u")
        (text "m")
        fallback_info
        (is_reasoning ⦃p = plain⦄ fallback_info (text "m"))
        []
        (pos 64))
      (openai_config
        (text "m")
        fallback_info
        (is_reasoning ⦃p = plain⦄ fallback_info (text "m"))
        (pos 64)
        (openai_payload
          (text "s")
          (text "u")
          (text "m")
          fallback_info
          (is_reasoning ⦃p = plain⦄ fallback_info (text "m"))
          []
          (pos 64)))
      fallback_info
      (is_reasoning ⦃p = plain⦄ fallback_info (text "m"))
openai_config-openai_payload_example =
    openai_config-openai_payload (text "s") (text "u") (text "m") (pos 64) ⦃p = plain⦄ [] settings
      fallback_info hosted_call

abbrev options : OllamaOptions
options = record {
  budget = pos 1024;
  temperature = 0;
  top_p = none;
  seed = none;
  structured_outputs = false;
}

read_options : ollama_options ⦃p = plain⦄ settings ≡ done options
unfolding ollama_options max_tokens strip text_eq text alertmind.Assistant.Llm.Settings.env_flag
read_options = refl

ollama_options-IsSampling_example : IsSampling options
ollama_options-IsSampling_example =
    ollama_options-IsSampling ⦃p = plain⦄ settings options read_options

-- ===== src/Assistant/Llm/Providers.antt =====
-- llm.py: the dispatch among the providers.
use alertmind.Prelude.{Bool, not, ◌||◌, if◌then◌else◌}
use alertmind.Text.{Text, text, text_eq}
use alertmind.Platform.{Platform}
use alertmind.Json.{Json, Fields}
use alertmind.Assistant.Llm.Error.{unknown_provider, requests_missing, Outcome, done, failed, ◌>>=◌}
use alertmind.Assistant.Llm.Settings.{Settings}
use alertmind.Assistant.Llm.Exchange.{Network}
use alertmind.Assistant.Llm.Mock.{mock}
use alertmind.Assistant.Llm.Anthropic.{anthropic}
use alertmind.Assistant.Llm.Openai.{openai}
use alertmind.Assistant.Llm.Ollama.{ollama}

module _ ⦃p : Platform⦄ (s : Settings) (network : Network) where
  -- `provider in _PROVIDERS`, but for "mock"
  abbrev is_provider : Text → Bool
  is_provider provider =
      text_eq provider (text "anthropic")
      || (text_eq provider (text "openai") || text_eq provider (text "ollama"))

  -- `call_llm_meta`
  unfoldable pub call_llm_meta : Text → Text → Text → Text → Outcome (Json × Fields)
  call_llm_meta provider system user model =
      if text_eq provider (text "mock")
      then done (mock user)
      else (if not (is_provider provider)
          then failed (unknown_provider provider)
          else (if not s.has_requests
              then failed requests_missing
              else (if text_eq provider (text "anthropic")
                  then anthropic s network system user model
                  else (if text_eq provider (text "openai")
                      then openai s network system user model
                      else ollama s network system user model))))

  -- `call_llm`
  unfoldable pub call_llm : Text → Text → Text → Text → Outcome Json
  call_llm provider system user model =
      call_llm_meta provider system user model >>= λ answer. done answer.0

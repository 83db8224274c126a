-- ===== src/Assistant/Llm/Anthropic.antt =====
-- llm.py: `_anthropic`.
use alertmind.Prelude.{ℤ, pos, [], ◌∷◌, Option, none, some}
use alertmind.Text.{Text, text}
use alertmind.Platform.{Platform}
use alertmind.Json.{Json, int, str, arr, obj, of_items, Fields, end, field}
use alertmind.Json.Dict.{insert}
use alertmind.Assistant.Llm.Error.{bad_shape, provider_error, Outcome, done, failed, ◌>>=◌}
use alertmind.Assistant.Llm.Settings.{Settings, max_tokens}
use alertmind.Assistant.Llm.Completion.{json_of, anthropic_meta, anthropic_text}
use alertmind.Assistant.Llm.Exchange.{Network, with_evidence, api_key, request_config, send}

abbrev shaped : Fields → Option Json → Outcome (Json × Fields)
shaped meta none = failed (provider_error bad_shape (obj meta))
shaped meta (some content) = done (content, meta)

unfoldable pub anthropic_payload : Text → Text → Text → ℤ → Fields
anthropic_payload system user model budget = field (text "model") (str model) (
    field (text "max_tokens") (int budget) (
      field (text "temperature") (int (pos 0)) (
        field (text "system") (str system) (
          field (text "messages")
            (arr (
              of_items (
                obj
                  (field (text "role") (str (text "user")) (field (text "content") (str user) end))
                ∷ [])))
            end))))

unfoldable pub anthropic_config : Text → ℤ → Fields
anthropic_config model budget = field (text "provider") (str (text "anthropic")) (
    field (text "model_requested") (str model) (
      field (text "endpoint") (str (text "https://api.anthropic.com/v1/messages")) (
        field (text "token_parameter") (str (text "max_tokens")) (
          field (text "token_budget") (int budget)
            (field (text "temperature") (int (pos 0)) end)))))

module _ ⦃p : Platform⦄ (s : Settings) (network : Network) where
  -- `_anthropic`
  unfoldable pub anthropic : Text → Text → Text → Outcome (Json × Fields)
  anthropic system user model = do
    key ← api_key s (text "ANTHROPIC_API_KEY")
    budget ← max_tokens s
    let config = anthropic_config model budget
    response ← with_evidence (field request_config (obj config) end) (
        send s network (text "https://api.anthropic.com/v1/messages")
          ((text "x-api-key", key)
            ∷ (text "anthropic-version", text "2023-06-01")
            ∷ (text "content-type", text "application/json")
            ∷ [])
          (anthropic_payload system user model budget))
    body ← json_of response.body
    meta ← anthropic_meta body
    shaped (insert request_config (obj config) meta) (anthropic_text body)

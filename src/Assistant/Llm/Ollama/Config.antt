-- ===== src/Assistant/Llm/Ollama/Config.antt =====
-- The configuration that `_ollama` of llm.py reports, against the request it sends.
use alertmind.Prelude.{ℕ, ◌≡◌, some, is_some}
use alertmind.Text.{Text, text}
use alertmind.Platform.{Platform}
use alertmind.Json.{bool, float, str, Fields}
use alertmind.Json.Dict.{lookup}
use alertmind.Assistant.Llm.Settings.{Settings}
use alertmind.Assistant.Llm.Endpoints.{RequestInfo}
use alertmind.Assistant.Llm.Openai.Config.{IsReported}

-- What the configuration says of the payload.
pub Describes : Fields → Fields → RequestInfo → Type 0
Describes payload config info =
    (lookup info.token_parameter payload ≡ lookup (text "token_budget") config)
    × (lookup (text "model") payload ≡ lookup (text "model_requested") config)
    × (lookup (text "endpoint") config ≡ some (str info.url))
    × ((t : ℕ) × (lookup (text "temperature") payload ≡ some (float t))
        × (lookup (text "temperature") config ≡ some (float t)))
    × IsReported (text "top_p") (text "omitted (model default)") payload config
    × IsReported (text "seed") (text "omitted") payload config
    × (lookup (text "structured_outputs") config
        ≡ some (bool (is_some (lookup (text "response_format") payload))))

-- ===== src/Assistant/Llm/Exchange.antt =====
-- llm.py: a request and its response, as the providers over HTTP share them.
use alertmind.Prelude.{
  ℕ, ℤ, pos, negsuc, List, [], ◌∷◌, ◌++◌, Option, none, some, is_empty, if◌then◌else◌,
}
use alertmind.Text.{Text, text}
use alertmind.Platform.{Platform}
use alertmind.Json.{Json, str, arr, obj, of_items, Fields, end, field}
use alertmind.Json.Dict.{insert}
use alertmind.Assistant.Post.{
  Attempt, PostEnd, Response, returned, timeout_error, connection_error, other_error, unreachable,
  http_error, post,
}
use alertmind.Assistant.Llm.Error.{
  LlmError, key_missing, post_failed, bad_shape, provider_error, Outcome, done, failed, ◌>>=◌,
}
use alertmind.Assistant.Llm.Settings.{Settings, timeout_seconds, retries}
use alertmind.Assistant.Llm.Completion.{completion_meta, completion_text}

-- The arguments of `requests.post`.
pub record HttpRequest : Type 0 where
  pub url : Text
  pub headers : List (Text × Text)
  pub payload : Fields
  pub timeout : ℤ

-- The network: what each attempt of a request comes to.
abbrev pub Network : Type 0
Network = HttpRequest → ℕ → Attempt

abbrev pub to_nat : ℤ → ℕ
to_nat (pos n) = n
to_nat (negsuc _) = 0

unfoldable pub response_of : PostEnd → Outcome Response
response_of (returned r) = done r
response_of timeout_error = failed (post_failed timeout_error)
response_of connection_error = failed (post_failed connection_error)
response_of other_error = failed (post_failed other_error)
response_of unreachable = failed (post_failed unreachable)
response_of (http_error r) = failed (post_failed (http_error r))

-- `except Exception as exc: raise ProviderError(str(exc), meta=...) from exc`
unfoldable pub with_evidence {ℓ} : {A : Type ℓ} → Fields → Outcome A → Outcome A
with_evidence meta (done a) = done a
with_evidence meta (failed e) = failed (provider_error e (obj meta))

-- `except RuntimeError` around `_completion_text`: the decoder's exception is none.
unfoldable pub with_runtime_evidence : Fields → Outcome Json → Outcome Json
with_runtime_evidence meta (failed bad_shape) = failed (provider_error bad_shape (obj meta))
with_runtime_evidence meta (failed (LlmError.no_content reason)) =
    failed (provider_error (LlmError.no_content reason) (obj meta))
with_runtime_evidence meta o = o

abbrev pub messages_of : Text → Text → Json
messages_of system user = arr (
    of_items (
      obj (field (text "role") (str (text "system")) (field (text "content") (str system) end))
      ∷ obj (field (text "role") (str (text "user")) (field (text "content") (str user) end))
      ∷ []))

abbrev required_key : Text → Option Text → Outcome Text
required_key name none = failed (key_missing name)
required_key name (some key) = if is_empty key then failed (key_missing name) else done key

-- `os.environ.get(name)`, `if not key: raise`
unfoldable pub api_key : Settings → Text → Outcome Text
api_key s name = required_key name (s.io.env name)

abbrev pub bearer : Text → List (Text × Text)
bearer key =
    (text "Authorization", text "Bearer " ++ key)
    ∷ (text "content-type", text "application/json")
    ∷ []

abbrev pub request_config : Text
request_config = text "request_config"

module _ ⦃p : Platform⦄ (s : Settings) (network : Network) where
  -- `_post`
  unfoldable pub send : Text → List (Text × Text) → Fields → Outcome Response
  send url headers payload = do
    tries ← retries s
    seconds ← timeout_seconds s
    response_of
        (post
          (network (record { url = url; headers = headers; payload = payload; timeout = seconds }))
          (to_nat tries)).0

  -- What `_openai` and `_ollama` do with the request they built.
  unfoldable pub exchange : Text → Text → Fields → Fields → Outcome (Json × Fields)
  exchange url key payload config = do
    response ← with_evidence (field request_config (obj config) end) (send url (bearer key) payload)
    meta ← completion_meta response.body
    let meta' = insert request_config (obj config) meta
    content ← with_runtime_evidence meta' (completion_text response.body)
    done (content, meta')

-- ===== src/Assistant/Llm/Error.antt =====
-- llm.py: the exceptions of the client, by what their messages are made of, and a call that may
-- raise one.
use alertmind.Prelude.{◌≡◌, refl}
use alertmind.Text.{Text}
use alertmind.Json.{Json}
use alertmind.Assistant.Post.{PostEnd}

pub data LlmError : Type 0 where
  -- `ValueError` of a setting: its name, what is wanted of it, and the text it holds
  not_a_number : Text → Text → Text → LlmError
  not_finite : Text → Text → LlmError
  out_of_range : Text → Text → Text → Text → LlmError
  not_a_flag : Text → Text → LlmError
  bad_override : LlmError
  -- `RuntimeError("... not set")`, and the one of `_api_root`
  key_missing : Text → LlmError
  not_a_root : Text → Text → LlmError
  -- `urlparse` raised
  bad_url : LlmError
  no_request_info : Text → LlmError
  unknown_provider : Text → LlmError
  requests_missing : LlmError
  -- an exception out of `_post`
  post_failed : PostEnd → LlmError
  -- `response.json()` raised
  not_json : LlmError
  -- an AttributeError, KeyError or TypeError on an answer of another shape
  malformed : LlmError
  -- the RuntimeErrors of `_completion_text`
  bad_shape : LlmError
  no_content : Json → LlmError
  -- `ProviderError(str(cause), meta)`
  provider_error : LlmError → Json → LlmError

pub data Outcome {ℓ} (A : Type ℓ) : Type ℓ where
  done : A → Outcome A
  failed : LlmError → Outcome A

infixl 5 ◌>>=◌
abbrev pub ◌>>=◌ {ℓ κ} : {A : Type ℓ} {B : Type κ} → Outcome A → (A → Outcome B) → Outcome B
done a >>= next = next a
failed e >>= next = failed e

-- A chain that came to its end passed through its first call, and goes on from its value.
pub after_done {ℓ κ μ} :
    {A : Type ℓ} {B : Type κ} {P : Type μ} (m : Outcome A) {f : A → Outcome B} {b : B}
    → (m >>= f) ≡ done b
    → ((a : A) → m ≡ done a → f a ≡ done b → P)
    → P
after_done (done a) h k = k a refl h
after_done (failed e) h k = absurd (cc)

pub done-injective {ℓ} : {A : Type ℓ} {a b : A} → done a ≡ done b → a ≡ b
done-injective h = cc

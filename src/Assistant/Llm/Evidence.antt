-- ===== src/Assistant/Llm/Evidence.antt =====
-- What a call of llm.py leaves behind for the audit, whichever way it ends.
use alertmind.Prelude.{
  ◌≡◌, refl, Option, some, none, true, false, Bool-cases, Option-cases, inl, inr, if◌then◌else◌,
  Bool,
}
use alertmind.Text.{Text}
use alertmind.Text.Laws.{text_eq_refl}
use alertmind.Platform.{Platform}
use alertmind.Json.{Json, arr, cons, obj, Fields, end, field, truthy}
use alertmind.Json.Dict.{lookup, insert, lookup-insert}
use alertmind.Json.Parsed.{Parsed, loads_plain}
use alertmind.Assistant.Post.{Response}
use alertmind.Assistant.Llm.Error.{
  not_json, malformed, bad_shape, no_content, provider_error, Outcome, done, failed, ◌>>=◌,
}
use alertmind.Assistant.Llm.Settings.{Settings}
use alertmind.Assistant.Llm.Completion.{
  json_of, dict_or_empty, first_choice, dict_meta, non_empty, content_of, completion_meta,
  completion_text, decoded_meta,
}
use alertmind.Assistant.Llm.Exchange.{
  Network, with_evidence, with_runtime_evidence, request_config, bearer, send, exchange,
}

-- The configuration stands in the metadata of an answer and of a `ProviderError`. Of the other
-- exceptions there are two, about a response that is no JSON or of another shape.
pub Evidenced : Fields → Outcome (Json × Fields) → Type 0
Evidenced config (done (content, meta)) = lookup request_config meta ≡ some (obj config)
Evidenced config (failed (provider_error e (obj meta))) =
    lookup request_config meta ≡ some (obj config)
Evidenced config (failed not_json) = Unit
Evidenced config (failed malformed) = Unit
Evidenced config (failed _) = ⊥

-- What the text of a response comes to: a content, or one of three exceptions.
IsTextOutcome : Outcome Json → Type 0
IsTextOutcome (done _) = Unit
IsTextOutcome (failed not_json) = Unit
IsTextOutcome (failed bad_shape) = Unit
IsTextOutcome (failed (no_content _)) = Unit
IsTextOutcome (failed _) = ⊥

-- A call that raises nothing but `malformed`.
IsMetaOutcome {ℓ} : {A : Type ℓ} → Outcome A → Type 0
IsMetaOutcome (done _) = Unit
IsMetaOutcome (failed malformed) = Unit
IsMetaOutcome (failed _) = ⊥

bind-IsMetaOutcome {ℓ κ} :
    {A : Type ℓ} {B : Type κ} (m : Outcome A) (f : A → Outcome B)
    → IsMetaOutcome m
    → ((a : A) → IsMetaOutcome (f a))
    → IsMetaOutcome (m >>= f)
unfolding IsMetaOutcome
bind-IsMetaOutcome (done a) f h k = k a
bind-IsMetaOutcome (failed malformed) f h k = tt
bind-IsMetaOutcome (failed _) f h k = absurd h

non_empty-IsTextOutcome : (choice : Json) (o : Option Json) → IsTextOutcome (non_empty choice o)
unfolding IsTextOutcome
non_empty-IsTextOutcome choice none = tt
non_empty-IsTextOutcome choice (some content) = elim (Bool-cases (truthy content)) [
  | inl filled ↦ rw filled tt
  | inr blank ↦ rw blank tt
]

content_of-IsTextOutcome : (o : Option Json) → IsTextOutcome (content_of o)
unfolding IsTextOutcome
content_of-IsTextOutcome none = tt
content_of-IsTextOutcome (some choice) = non_empty-IsTextOutcome choice _

completion_text-IsTextOutcome : (body : Parsed) → IsTextOutcome (completion_text body)
unfolding completion_text json_of IsTextOutcome
completion_text-IsTextOutcome body = elim (Option-cases (loads_plain body)) [
  | inl e ↦ rw e tt
  | inr (v, e) ↦ rw e (content_of-IsTextOutcome _)
]

either-IsMetaOutcome {ℓ} :
    {A : Type ℓ} (b : Bool) (a : A) → IsMetaOutcome (if b then failed malformed else done a)
unfolding IsMetaOutcome
either-IsMetaOutcome true a = tt
either-IsMetaOutcome false a = tt

dict_or_empty-IsMetaOutcome : (v : Json) → IsMetaOutcome (dict_or_empty v)
unfolding dict_or_empty IsMetaOutcome
dict_or_empty-IsMetaOutcome (obj fs) = tt
dict_or_empty-IsMetaOutcome v = either-IsMetaOutcome (truthy _) end

first_choice-IsMetaOutcome : (v : Json) → IsMetaOutcome (first_choice v)
unfolding first_choice IsMetaOutcome
first_choice-IsMetaOutcome (arr (cons choice _)) = tt
first_choice-IsMetaOutcome v = either-IsMetaOutcome (truthy _) (obj end)

dict_meta-IsMetaOutcome : (fs : Fields) → IsMetaOutcome (dict_meta fs)
unfolding dict_meta IsMetaOutcome
dict_meta-IsMetaOutcome fs =
    bind-IsMetaOutcome (dict_or_empty _) _ (dict_or_empty-IsMetaOutcome _) (λ usage.
      bind-IsMetaOutcome (dict_or_empty _) _ (dict_or_empty-IsMetaOutcome _) (λ details.
        bind-IsMetaOutcome (first_choice _) _ (first_choice-IsMetaOutcome _) (λ first.
          bind-IsMetaOutcome (dict_or_empty _) _ (dict_or_empty-IsMetaOutcome _) (λ choice. tt))))

decoded-IsMetaOutcome : (o : Option Json) → IsMetaOutcome (decoded_meta o)
unfolding IsMetaOutcome
decoded-IsMetaOutcome (some (obj fs)) = dict_meta-IsMetaOutcome fs
decoded-IsMetaOutcome _ = tt

module _ (config : Fields) where
  abbrev reported : Fields → Fields
  reported meta = insert request_config (obj config) meta

  lookup-reported : (meta : Fields) → lookup request_config (reported meta) ≡ some (obj config)
  lookup-reported meta =
      let same = text_eq_refl request_config in
      let e = lookup-insert request_config request_config (obj config) meta in rw (e, same) refl

  text_Evidenced :
      (meta : Fields) (o : Outcome Json)
      → IsTextOutcome o
      → Evidenced config
          (with_runtime_evidence (reported meta) o >>= λ content. done (content, reported meta))
  unfolding Evidenced IsTextOutcome with_runtime_evidence
  text_Evidenced meta (done content) h = lookup-reported meta
  text_Evidenced meta (failed not_json) h = tt
  text_Evidenced meta (failed bad_shape) h = lookup-reported meta
  text_Evidenced meta (failed (no_content reason)) h = lookup-reported meta
  text_Evidenced meta (failed _) h = absurd h

  body_Evidenced :
      (body : Parsed) (m : Outcome Fields)
      → IsMetaOutcome m
      → Evidenced config (
          m >>= λ meta. with_runtime_evidence (reported meta) (completion_text body) >>= λ content.
          done (content, reported meta))
  unfolding Evidenced IsMetaOutcome
  body_Evidenced body (done meta) h =
      text_Evidenced meta (completion_text body) (completion_text-IsTextOutcome body)
  body_Evidenced body (failed malformed) h = tt
  body_Evidenced body (failed _) h = absurd h

  send_Evidenced :
      (o : Outcome Response)
      → Evidenced config (
          with_evidence (field request_config (obj config) end) o >>= λ response.
          completion_meta response.body >>= λ meta.
          with_runtime_evidence (reported meta) (completion_text response.body) >>= λ content.
          done (content, reported meta))
  unfolding Evidenced with_evidence completion_meta lookup
  send_Evidenced (done response) =
      body_Evidenced response.body _ (decoded-IsMetaOutcome (loads_plain response.body))
  send_Evidenced (failed e) = let same = text_eq_refl request_config in rw same refl

  -- However the exchange with a provider ends, the configuration of the request is in the metadata
  -- that the caller gets, with the answer or with the exception; only a response that is no JSON,
  -- or whose metadata is of another shape, raises an exception that does not carry it.
  pub exchange-Evidenced :
      ⦃p : Platform⦄ (s : Settings) (network : Network) (url key : Text) (payload : Fields)
      → Evidenced config (exchange s network url key payload config)
  unfolding exchange
  exchange-Evidenced s network url key payload =
      send_Evidenced (send s network url (bearer key) payload)

-- ===== src/Assistant/Llm/Openai/Config.antt =====
-- The configuration that `_openai` of llm.py reports, against the request it sends.
use alertmind.Prelude.{
  or_else, if◌then◌else◌, ℤ, Bool, true, false, ◌&&◌, ◌≡◌, refl, [], ◌∷◌, none, some, subst,
}
use alertmind.Text.{Text, text, text_eq}
use alertmind.Platform.{Platform}
use alertmind.Json.{bool, str, Fields}
use alertmind.Json.Dict.{lookup}
use alertmind.Assistant.Llm.Error.{done, after_done, done-injective}
use alertmind.Assistant.Llm.Settings.{Settings}
use alertmind.Assistant.Llm.Endpoints.{
  RequestInfo, token_parameter_of, info_of, api_root, openai_base, is_official_openai, openai_info,
}
use alertmind.Assistant.Llm.Openai.{is_reasoning, openai_parameters, openai_payload, openai_config}

-- A value of the payload is reported under the same name, and where the payload has none, this text.
unfoldable pub IsReported : Text → Text → Fields → Fields → Type 0
IsReported k absent payload config =
    lookup k config ≡ some (or_else (lookup k payload) (str absent))

-- What the configuration says of the payload: the model, the address, the budget under the name that
-- the endpoint takes, and of each sampling setting what was sent or that none was. An official
-- endpoint is sent no legacy budget, and a reasoning model no temperature.
pub Describes : Fields → Fields → RequestInfo → Bool → Type 0
Describes payload config info reasoning =
    (lookup info.token_parameter payload ≡ lookup (text "token_budget") config)
    × (lookup (text "model") payload ≡ lookup (text "model_requested") config)
    × (lookup (text "endpoint") config ≡ some (str info.url))
    × (lookup (text "reasoning_model") config ≡ some (bool reasoning))
    × IsReported (text "temperature")
        (text "omitted (unsupported on official OpenAI reasoning models)") payload config
    × IsReported (text "reasoning_effort")
        (if reasoning
          then text "unset (vendor default)"
          else text "n/a (non-reasoning model or third-party endpoint)")
        payload config
    × (info.official_openai ≡ true → lookup (text "max_tokens") payload ≡ none)
    × (reasoning ≡ true → lookup (text "temperature") payload ≡ none)

module _ (system user model : Text) (budget : ℤ) where
  describes :
      (base : Text) (official reasoning : Bool) (effort : Text)
      → (reasoning ≡ true → official ≡ true)
      → let info = info_of base model official in
        let payload = openai_payload system user model info reasoning effort budget in
        Describes payload (openai_config model info reasoning budget payload) info reasoning
  unfolding Describes IsReported lookup text text_eq token_parameter_of openai_payload
      openai_parameters openai_config
  describes base true true [] h = (refl, refl, refl, refl, refl, refl, λ _. refl, λ _. refl)
  describes base true true (c ∷ effort) h =
      (refl, refl, refl, refl, refl, refl, λ _. refl, λ _. refl)
  describes base true false effort h =
      (refl, refl, refl, refl, refl, refl, λ _. refl, λ e. absurd (cc))
  describes base false true effort h = let e = h refl in absurd (cc)
  describes base false false effort h =
      (refl, refl, refl, refl, refl, refl, λ e. absurd (cc), λ e. absurd (cc))

  module _ ⦃p : Platform⦄ (effort : Text) where
    Described : RequestInfo → Type 0
    Described info =
        let reasoning = is_reasoning info model in
        let payload = openai_payload system user model info reasoning effort budget in
        Describes payload (openai_config model info reasoning budget payload) info reasoning

    official_if : (b c : Bool) → b && c ≡ true → b ≡ true
    official_if true c h = refl
    official_if false c h = absurd (cc)

    described : (base : Text) (official : Bool) → Described (info_of base model official)
    unfolding Described is_reasoning
    described base official =
        describes base official (is_reasoning (info_of base model official) model) effort
          (official_if official _)

    -- The configuration that is reported for a call of an endpoint describes the request that is sent
    -- to it: the same model, the endpoint's address, the same token budget, under the name that this
    -- endpoint takes, and for temperature and reasoning effort the value that is in the request, or,
    -- exactly if there is none, the text that says so. No request to the official endpoint has the legacy budget, and
    -- none for a reasoning model a temperature.
    pub openai_config-openai_payload :
        (s : Settings) (info : RequestInfo)
        → openai_info s model ≡ done info
        → let reasoning = is_reasoning info model in
          let payload = openai_payload system user model info reasoning effort budget in
          Describes payload (openai_config model info reasoning budget payload) info reasoning
    unfolding openai_info Described
    openai_config-openai_payload s info h =
        after_done (api_root (openai_base s) (text "OPENAI_BASE_URL")) h (λ base _ h'.
          after_done (is_official_openai s base) h'
            (λ official _ h''. subst Described (done-injective h'') (described base official)))

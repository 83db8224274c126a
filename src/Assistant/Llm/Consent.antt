-- ===== src/Assistant/Llm/Consent.antt =====
-- Whether the endpoint that paste_core.py asks consent for is the one that llm.py sends to.
use alertmind.Prelude.{
  Bool, true, false, ◌||◌, ◌≡◌, refl, sym, ap, ◌∙◌, ◌⊎◌, inl, inr, Option, none, some, is_some,
  Bool-cases, Option-cases,
}
use alertmind.Text.{Text, text, text_eq, ends_with}
use alertmind.Text.Laws.{text_eq_sound}
use alertmind.Text.Trim.{rstrip_char}
use alertmind.Platform.{Platform, lower}
use alertmind.Assistant.Paste.Endpoint.{
  Url, default_endpoint, provider_endpoint, is_loopback_endpoint, requires_egress_consent,
}
use alertmind.Assistant.Llm.Error.{
  not_a_root, no_request_info, done, failed, done-injective, after_done,
}
use alertmind.Assistant.Llm.Settings.{Settings}
use alertmind.Assistant.Llm.Endpoints.{
  RequestInfo, api_root, openai_base, ollama_base, is_official_openai, openai_info, ollama_info,
  provider_request_info,
}

module _ ⦃p : Platform⦄ (s : Settings) (model : Text) where
  api_root-base :
      (base variable root : Text)
      → api_root base variable ≡ done root
      → root ≡ rstrip_char b'/' base
  unfolding api_root
  api_root-base base variable root h =
      let root' = rstrip_char b'/' base in
      elim (Bool-cases
        (ends_with (text "/chat/completions") root' || ends_with (text "/responses") root')) [
          | inl endpoint ↦
              let e : api_root base variable ≡ failed (not_a_root variable root') =
                rw (endpoint, api_root) refl in
              absurd (cc)
          | inr passed ↦
              let e : api_root base variable ≡ done root' = rw (passed, api_root) refl in
              done-injective (sym h ∙ e)
        ]

  openai-base :
      (info : RequestInfo)
      → openai_info s model ≡ done info
      → info.base ≡ rstrip_char b'/' (openai_base s)
  unfolding openai_info
  openai-base info h =
      after_done (api_root (openai_base s) (text "OPENAI_BASE_URL")) h (λ base e h'.
        after_done (is_official_openai s base) h' (λ official _ h''.
          ap (λ (i : RequestInfo). i.base) (sym (done-injective h'')) ∙ api_root-base _ _ base e))

  ollama-base :
      (info : RequestInfo)
      → ollama_info s model ≡ done info
      → info.base ≡ rstrip_char b'/' (ollama_base s)
  unfolding ollama_info
  ollama-base info h =
      after_done (api_root (ollama_base s) (text "OLLAMA_BASE_URL")) h (λ base e h'.
        ap (λ (i : RequestInfo). i.base) (sym (done-injective h')) ∙ api_root-base _ _ base e)

  openai_endpoint : openai_base s ≡ provider_endpoint s.io (text "openai")
  unfolding openai_base provider_endpoint default_endpoint text text_eq
  openai_endpoint = refl

  -- The base of the local server is read from its own variable, or from none.
  pub IsOwn : Type 0
  IsOwn =
      (is_some (s.io.env (text "OLLAMA_BASE_URL")) ≡ true)
      ⊎ (s.io.env (text "OPENAI_BASE_URL") ≡ none)

  ollama_endpoint : IsOwn → ollama_base s ≡ provider_endpoint s.io (text "ollama")
  unfolding ollama_base provider_endpoint default_endpoint text text_eq IsOwn
  ollama_endpoint h = elim (Option-cases (s.io.env (text "OLLAMA_BASE_URL"))) [
    | inr (v, e) ↦ rw e refl
    | inl e ↦ elim h [ inl f ↦ absurd (unset _ e f) | inr f ↦ rw (e, f) refl ]
  ]
    where
      unset : (o : Option Text) → o ≡ none → is_some o ≡ true → ⊥
      unset none e f = absurd (cc)
      unset (some v) e f = absurd (cc)

  -- A request goes to the endpoint that the consent was decided for, less slashes at its end, unless
  -- it goes to the local server, whose own variable is not set while the one of the hosted
  -- provider is.
  pub provider_request_info-provider_endpoint :
      (provider : Text) (info : RequestInfo)
      → provider_request_info s provider model ≡ done info
      → (text_eq provider (text "ollama") ≡ false) ⊎ IsOwn
      → info.base ≡ rstrip_char b'/' (provider_endpoint s.io provider)
  unfolding provider_request_info
  provider_request_info-provider_endpoint provider info h own =
      elim (Bool-cases (text_eq provider (text "openai"))) [
        | inl hosted ↦
            let name : provider ≡ text "openai" = text_eq_sound provider (text "openai") hosted in
            let e : openai_info s model ≡ provider_request_info s provider model =
              rw (hosted, provider_request_info) refl in
            openai-base info (e ∙ h)
            ∙ ap (rstrip_char b'/') (openai_endpoint ∙ ap (provider_endpoint s.io) (sym name))
        | inr other ↦ elim (Bool-cases (text_eq provider (text "ollama"))) [
          | inl local ↦
              let name : provider ≡ text "ollama" = text_eq_sound provider (text "ollama") local in
              let e : ollama_info s model ≡ provider_request_info s provider model =
                rw (other, local, provider_request_info) refl in
              ollama-base info (e ∙ h)
              ∙ ap (rstrip_char b'/')
                  (ollama_endpoint (own_if own local) ∙ ap (provider_endpoint s.io) (sym name))
          | inr unknown ↦
              let e : provider_request_info s provider model ≡ failed (no_request_info provider) =
                rw (other, unknown, provider_request_info) refl in
              absurd (cc)
        ]
      ]
    where
      own_if : {b : Bool} → (b ≡ false) ⊎ IsOwn → b ≡ true → IsOwn
      own_if (inl f) t = absurd (cc)
      own_if (inr o) t = o

  -- Where the local server's own variable is not set and the hosted provider's is, a call of the
  -- local server goes to the hosted endpoint, and yet no consent is required for it: the decision is
  -- made for the local default.
  pub requires_egress_consent-ollama_info :
      (u : Url) (remote : Text) (info : RequestInfo)
      → s.io.env (text "OLLAMA_BASE_URL") ≡ none
      → s.io.env (text "OPENAI_BASE_URL") ≡ some remote
      → s.io.split_url (text "http://localhost:11434/v1") ≡ some u
      → u.scheme ≡ text "http"
      → u.host ≡ text "localhost"
      → provider_request_info s (text "ollama") model ≡ done info
      → (info.base ≡ rstrip_char b'/' remote)
        × (requires_egress_consent s.io (text "ollama") (provider_endpoint s.io (text "ollama"))
            ≡ false)
  unfolding provider_request_info text text_eq ollama_base requires_egress_consent
      is_loopback_endpoint provider_endpoint default_endpoint lower
  requires_egress_consent-ollama_info u remote info unset hosted split scheme host h =
      (ollama-base info h ∙ rw (unset, hosted) refl, rw (unset, split, scheme, host) refl)

-- ===== src/Assistant/Paste/Sending.antt =====
-- What the pipeline of paste_core.py lets out.
use alertmind.Prelude.{
  ◌≡◌, refl, ap, sym, ◌∙◌, subst, ◌⊎◌, inl, inr, not, ◌&&◌, List, [], ◌∷◌, Option, none, some,
  Bool-cases,
}
use alertmind.Text.{Text}
use alertmind.Platform.{Platform, Bytes}
use alertmind.Json.{obj, Fields}
use alertmind.Assistant.Redact.{redact_node, redact_fields, redact_alert_with_trace}
use alertmind.Assistant.Redact.Independent.{hide_fields, redact_fields-hide}
use alertmind.Assistant.Views.{apply_view}
use alertmind.Assistant.Injection.{contains_boundary}
use alertmind.Assistant.Prompts.{get_system_prompt, build_user_prompt}
use alertmind.Assistant.Answer.{Reply}
use alertmind.Assistant.Paste.Input.{InputError, ParseMode, parse_input, check_limits}
use alertmind.Assistant.Paste.Endpoint.{Surroundings, provider_endpoint, requires_egress_consent}
use alertmind.Assistant.Paste.{
  PasteResult, Request, Sent, prepare, decide, run_paste_pipeline, within_limits, from_input,
}
use alertmind.Assistant.Paste.Gates.{IsPrepared, IsGated, decide-IsGated}

module _ ⦃p : Platform⦄ where
  module _ (io : Surroundings) (utf8 : Text → Bytes) (key : Bytes) (call : Sent → Reply) where
    inr-injective :
        (a b : PasteResult × List Sent)
        → ◌≡◌ {A = InputError ⊎ (PasteResult × List Sent)} (inr a) (inr b)
        → a ≡ b
    inr-injective a b h = cc

    -- A run that returns went through the limits to the gates.
    decided :
        (q : Request) (now later : Text) (r : PasteResult) (sent : List Sent) (alert : Fields)
        (mode : ParseMode)
        → from_input io utf8 key call q now later (inr (alert, mode)) ≡ inr (r, sent)
        → decide io utf8 key call q (prepare io utf8 key q now later alert mode) ≡ (r, sent)
    decided q now later r sent alert mode h = limited (check_limits alert) h
      where
        limited :
            (o : Option InputError)
            → within_limits io utf8 key call q now later alert mode o ≡ inr (r, sent)
            → decide io utf8 key call q (prepare io utf8 key q now later alert mode) ≡ (r, sent)
        limited none k = inr-injective _ _ k
        limited (some e) k = absurd (cc)

    -- A run that returns a result has parsed the pasted text, and shows that alert redacted, cut to the
    -- view, and in the message. Then either nothing is sent, and the status is that of the first gate
    -- that is shut: the alert's printed form holds a delimiter, or consent is missing though the
    -- endpoint that `provider_endpoint` names needs it, or calls are not allowed. Or exactly one call
    -- is made, with that message: no string or key of its alert holds a delimiter, there is consent
    -- unless that endpoint needs none, and calls are allowed.
    pub run_paste_pipeline-IsGated :
        (q : Request) (now later : Text) (r : PasteResult) (sent : List Sent)
        → run_paste_pipeline io utf8 key call q now later ≡ inr (r, sent)
        → (alert : Fields) × (mode : ParseMode) × (parse_input q.raw_text ≡ inr (alert, mode))
          × IsPrepared io utf8 key call q alert r
          × IsGated io utf8 key call q r sent
    unfolding run_paste_pipeline
    run_paste_pipeline-IsGated q now later r sent h = through (parse_input q.raw_text) refl h
      where
        through :
            (i : InputError ⊎ (Fields × ParseMode))
            → parse_input q.raw_text ≡ i
            → from_input io utf8 key call q now later i ≡ inr (r, sent)
            → (alert : Fields) × (mode : ParseMode) × (parse_input q.raw_text ≡ inr (alert, mode))
              × IsPrepared io utf8 key call q alert r
              × IsGated io utf8 key call q r sent
        through (inl e) read k = absurd (cc)
        through (inr (alert, mode)) read k =
            let (prepared, gated) =
              subst
                (λ (x : PasteResult × List Sent).
                  IsPrepared io utf8 key call q alert x.0 × IsGated io utf8 key call q x.0 x.1)
                (decided q now later r sent alert mode k)
                (decide-IsGated io utf8 key call q alert
                  (prepare io utf8 key q now later alert mode) (unfold prepare in refl)
                  (unfold prepare IsPrepared redact_alert_with_trace redact_node in
                    (refl, refl, refl))) in
            (alert, mode, read, prepared, gated)

    decide-sent :
        (q : Request) (t : Text) (r s : PasteResult)
        → r.model_bound_alert ≡ s.model_bound_alert
        → r.redacted_user_message ≡ s.redacted_user_message
        → (decide io utf8 key call q r).1
          ≡ (decide io utf8 key call (record q { raw_text = t }) s).1
    unfolding decide
    decide-sent q t r s e m =
        let needed = requires_egress_consent io q.provider (provider_endpoint io q.provider) in
        let same : contains_boundary (obj r.model_bound_alert)
            ≡ contains_boundary (obj s.model_bound_alert) =
          ap (λ x. contains_boundary (obj x)) e in
        elim (Bool-cases (contains_boundary (obj s.model_bound_alert))) [
          | inl stopped ↦ rw (same, stopped) refl
          | inr clear' ↦
              rw (same, clear')
                (elim (Bool-cases (needed && not q.consent)) [
                  | inl denied ↦ rw denied refl
                  | inr granted ↦ rw granted (elim (Bool-cases (not q.allow_call)) [
                    | inl off ↦ rw off refl
                    | inr on ↦ rw on (
                        ap
                          (λ x.
                            record {
                              provider = q.provider;
                              system = get_system_prompt q.prompt_name;
                              user = x;
                              model = q.model;
                            }
                            ∷ [])
                          m)
                  ])
                ])
        ]

    -- Two pasted alerts that differ only in the values under sensitive keys lead to the same calls:
    -- what a provider is sent does not depend on those values.
    pub run_paste_pipeline-hide :
        (q : Request) (t now later now' later' : Text) (r s : PasteResult) (sent sent' : List Sent)
        (alert other : Fields) (mode mode' : ParseMode)
        → parse_input q.raw_text ≡ inr (alert, mode)
        → parse_input t ≡ inr (other, mode')
        → hide_fields alert ≡ hide_fields other
        → run_paste_pipeline io utf8 key call q now later ≡ inr (r, sent)
        → run_paste_pipeline io utf8 key call (record q { raw_text = t }) now' later'
          ≡ inr (s, sent')
        → sent ≡ sent'
    unfolding run_paste_pipeline
    run_paste_pipeline-hide q t now later now' later' r s sent sent' alert other mode mode' i j e h
          k =
        let q' : Request = record q { raw_text = t } in
        let first =
          decided q now later r sent alert mode
            (ap (from_input io utf8 key call q now later) (sym i) ∙ h) in
        let second =
          decided q' now' later' s sent' other mode'
            (ap (from_input io utf8 key call q' now' later') (sym j) ∙ k) in
        let redacted =
          redact_fields-hide key key alert [] [] (some []) (some [])
          ∙ ap (λ x. (redact_fields key x [] (some [])).0) e
          ∙ sym (redact_fields-hide key key other [] [] (some []) (some [])) in
        let bound = ap (λ x. apply_view x q.view) redacted in
        ap (λ x. x.1) (sym first)
        ∙ decide-sent q t (prepare io utf8 key q now later alert mode)
            (prepare io utf8 key q' now' later' other mode') (unfold prepare in bound)
            (unfold prepare in ap (λ x. build_user_prompt (obj x)) bound)
        ∙ ap (λ x. x.1) second

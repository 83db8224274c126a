-- ===== src/Assistant/Paste/Gates.antt =====
-- The gates in front of the call of paste_core.py: which one is shut, and what goes through them.
use alertmind.Prelude.{
  ◌≡◌, refl, ap, sym, ◌∙◌, subst, ◌⊎◌, inl, inr, Bool, true, false, not, ◌&&◌, ◌||◌, List, [], ◌∷◌,
  Option, none, some, Bool-cases, arith,
}
use alertmind.Text.{Text}
use alertmind.Platform.{Platform, Bytes}
use alertmind.Json.{Json, null, bool, int, float, str, arr, obj, Fields}
use alertmind.Result.{Result, ok, err}
use alertmind.Dumps.Mentions.{mentions}
use alertmind.Assistant.Redact.{redact_alert_with_trace}
use alertmind.Assistant.Views.{apply_view}
use alertmind.Assistant.Injection.{contains_boundary, delim_open, delim_close}
use alertmind.Assistant.Injection.Gate.{contains_boundary-mentions}
use alertmind.Assistant.Prompts.{get_system_prompt, build_user_prompt}
use alertmind.Assistant.Schema.{validate_output, SchemaError}
use alertmind.Assistant.Answer.{Reply, answered, raised, parse_response}
use alertmind.Assistant.Paste.Endpoint.{Surroundings, provider_endpoint, requires_egress_consent}
use alertmind.Assistant.Paste.{
  clear, blocked, not_called, blocked_boundary, blocked_consent, called, error, PasteResult,
  Request, Sent, with_meta, with_verdict, or_empty, exception, take_reply, decide, request_of,
}

-- The parts of a result that the call does not touch.
Keeps : PasteResult → PasteResult → Type 0
Keeps r s =
    (s.model_bound_alert ≡ r.model_bound_alert)
    × (s.redacted_user_message ≡ r.redacted_user_message)
    × ((s.call_status ≡ called) ⊎ (s.call_status ≡ error))
    × (s.redacted_alert ≡ r.redacted_alert)
    × (s.boundary_status ≡ r.boundary_status)

module _ ⦃p : Platform⦄ where
  with_verdict-Keeps :
      (r s : PasteResult) (v : Result (Bool × List SchemaError × Json))
      → Keeps r s
      → Keeps r (with_verdict s v)
  unfolding Keeps
  with_verdict-Keeps r s (ok (valid, errors, parsed)) k = k
  with_verdict-Keeps r s (err code) (a, b, _, c, d) = (a, b, inr refl, c, d)

  with_meta-Keeps : (r s : PasteResult) (m : Option Json) → Keeps r s → Keeps r (with_meta s m)
  unfolding Keeps
  with_meta-Keeps r s none k = k
  with_meta-Keeps r s (some (obj m)) k = k
  with_meta-Keeps r s (some null) k = k
  with_meta-Keeps r s (some (bool x)) k = k
  with_meta-Keeps r s (some (int x)) k = k
  with_meta-Keeps r s (some (float x)) k = k
  with_meta-Keeps r s (some (str x)) k = k
  with_meta-Keeps r s (some (arr x)) k = k

  take_reply-Keeps : (r : PasteResult) (y : Reply) → Keeps r (take_reply r y)
  unfolding take_reply Keeps
  take_reply-Keeps r (answered raw meta) =
      with_verdict-Keeps r (record r { call_meta = or_empty meta; call_status = called })
        (validate_output (parse_response raw)) (refl, refl, inl refl, refl, refl)
  take_reply-Keeps r (raised line meta) =
      with_meta-Keeps r (record r { call_status = error; schema_errors = exception line ∷ [] }) meta
        (refl, refl, inr refl, refl, refl)

  module _ (io : Surroundings) (utf8 : Text → Bytes) (key : Bytes) (call : Sent → Reply) where
    -- The alert that the result shows is the pasted one, redacted and then cut to the view, and the
    -- message is built from it.
    unfoldable pub IsPrepared : Request → Fields → PasteResult → Type 0
    IsPrepared q alert r =
        (obj r.redacted_alert ≡ (redact_alert_with_trace key (obj alert)).0)
        × (r.model_bound_alert ≡ apply_view r.redacted_alert q.view)
        × (r.redacted_user_message ≡ build_user_prompt (obj r.model_bound_alert))

    abbrev pub needs_consent : Request → Bool
    needs_consent q = requires_egress_consent io q.provider (provider_endpoint io q.provider)

    -- Each shut gate with its status and its condition, the first one that is shut; or one call
    -- through three open gates.
    pub IsGated : Request → PasteResult → List Sent → Type 0
    IsGated q r sent =
        ((sent ≡ [])
          × (r.boundary_status ≡ blocked)
          × (r.call_status ≡ blocked_boundary)
          × (contains_boundary (obj r.model_bound_alert) ≡ true))
        ⊎ (((sent ≡ [])
              × (r.boundary_status ≡ clear)
              × (r.call_status ≡ blocked_consent)
              × (contains_boundary (obj r.model_bound_alert) ≡ false)
              × (needs_consent q ≡ true)
              × (q.consent ≡ false))
            ⊎ (((sent ≡ [])
                  × (r.boundary_status ≡ clear)
                  × (r.call_status ≡ not_called)
                  × (contains_boundary (obj r.model_bound_alert) ≡ false)
                  × ((needs_consent q ≡ false) ⊎ (q.consent ≡ true))
                  × (q.allow_call ≡ false))
                ⊎ ((sent ≡ request_of io utf8 key call q r ∷ [])
                    × (r.boundary_status ≡ clear)
                    × ((r.call_status ≡ called) ⊎ (r.call_status ≡ error))
                    × ((mentions delim_open (obj r.model_bound_alert)
                          || mentions delim_close (obj r.model_bound_alert))
                        ≡ false)
                    × ((needs_consent q ≡ false) ⊎ (q.consent ≡ true))
                    × (q.allow_call ≡ true))))

    Keeps-IsPrepared :
        (q : Request) (alert : Fields) (r s : PasteResult)
        → Keeps r s
        → IsPrepared q alert r
        → IsPrepared q alert s
    unfolding Keeps IsPrepared
    Keeps-IsPrepared q alert r s (bound, message, _, redacted, _) (a, b, c) = (
      ap obj redacted ∙ a,
      bound ∙ b ∙ ap (λ x. apply_view x q.view) (sym redacted),
      message ∙ c ∙ ap (λ x. build_user_prompt (obj x)) (sym bound),
    )

    unmentioned :
        (v : Json)
        → contains_boundary v ≡ false
        → (mentions delim_open v || mentions delim_close v) ≡ false
    unmentioned v h = ground (arith, contains_boundary-mentions v)

    sent_out :
        (q : Request) (r : PasteResult)
        → r.boundary_status ≡ clear
        → contains_boundary (obj r.model_bound_alert) ≡ false
        → (needs_consent q ≡ false) ⊎ (q.consent ≡ true)
        → q.allow_call ≡ true
        → IsGated q
            (take_reply r (call (request_of io utf8 key call q r)))
            (request_of io utf8 key call q r ∷ [])
    unfolding IsGated Keeps
    sent_out q r begun b c a =
        let (bound, message, status, _, boundary) =
          take_reply-Keeps r (call (request_of io utf8 key call q r)) in
        inr (
          inr (
            inr (
              ap
                  (λ x.
                    record {
                      provider = q.provider;
                      system = get_system_prompt q.prompt_name;
                      user = x;
                      model = q.model;
                    }
                    ∷ [])
                  (sym message),
              boundary ∙ begun,
              status,
              subst (λ x. (mentions delim_open (obj x) || mentions delim_close (obj x)) ≡ false)
                  (sym bound) (unmentioned (obj r.model_bound_alert) b),
              c,
              a,
            )))

    either : (a b : Bool) → (a && not b) ≡ false → (a ≡ false) ⊎ (b ≡ true)
    either false b h = inl refl
    either true true h = inr refl
    either true false h = absurd (cc)

    refused : (a b : Bool) → (a && not b) ≡ true → (a ≡ true) × (b ≡ false)
    refused a b h = ground arith

    pub decide-IsGated :
        (q : Request) (alert : Fields) (r : PasteResult)
        → r.boundary_status ≡ clear
        → IsPrepared q alert r
        → let (s, sent) = decide io utf8 key call q r in IsPrepared q alert s × IsGated q s sent
    unfolding decide IsGated IsPrepared
    decide-IsGated q alert r begun prepared =
        elim (Bool-cases (contains_boundary (obj r.model_bound_alert))) [
          | inl stopped ↦ rw stopped (prepared, inl (refl, refl, refl, stopped))
          | inr clear' ↦ rw clear' (elim (Bool-cases (needs_consent q && not q.consent)) [
            | inl denied ↦
                let (needed, none_given) = refused (needs_consent q) q.consent denied in
                rw denied (prepared, inr (inl (refl, begun, refl, clear', needed, none_given)))
            | inr granted ↦ rw granted (elim (Bool-cases (not q.allow_call)) [
              | inl off ↦ rw off (
                prepared,
                inr (
                    inr (
                      inl (
                        refl,
                        begun,
                        refl,
                        clear',
                        either (needs_consent q) q.consent granted,
                        ground arith,
                      ))),
              )
              | inr on ↦ rw on (
                Keeps-IsPrepared q alert r _ (take_reply-Keeps r _) prepared,
                sent_out q r begun clear' (either (needs_consent q) q.consent granted)
                    (ground arith),
              )
            ])
          ])
        ]

-- ===== src/Assistant/Redact/Independent.antt =====
-- What the redacted alert of redact.py depends on.
use alertmind.Prelude.{
  ℕ, suc, ◌≡◌, refl, ap, sym, ◌∙◌, inl, inr, Bool-cases, if◌then◌else◌, [], none,
}
use alertmind.Text.{Text}
use alertmind.Platform.{Platform, Bytes}
use alertmind.Json.{
  Json, null, bool, int, float, str, arr, obj, Items, nil, cons, Fields, end, field,
}
use alertmind.Assistant.Redact.{
  Trace, is_sensitive_key, redact_node, redact_fields, redact_items, redact_alert,
  redact_alert_with_trace, child_path, item_path,
}
use alertmind.Assistant.Redact.Steps.{
  value_step, value_step_sensitive, value_step_open, redact_fields_field, redact_items_cons,
}

module _ ⦃p : Platform⦄ where
  -- The alert with every value under a sensitive key taken out.
  unfoldable mutual
    pub hide : Json → Json
    hide (obj fs) = obj (hide_fields fs)
    hide (arr vs) = arr (hide_items vs)
    hide v = v

    pub hide_fields : Fields → Fields
    hide_fields end = end
    hide_fields (field k v fs) =
        let v' = hide v in field k (if is_sensitive_key k then null else v') (hide_fields fs)

    pub hide_items : Items → Items
    hide_items nil = nil
    hide_items (cons v vs) = cons (hide v) (hide_items vs)

  module _ (key key' : Bytes) where
    value_step-hide :
        (k : Text) (v w : Json) (path path' : Text) (t t' : Trace)
        → w ≡ (if is_sensitive_key k then null else hide v)
        → (redact_node key v (child_path path k) t).0
          ≡ (redact_node key' (hide v) (child_path path' k) t').0
        → (value_step key k v path t).0 ≡ (value_step key' k w path' t').0
    value_step-hide k v w path path' t t' e h = elim (Bool-cases (is_sensitive_key k)) [
      | inl hidden ↦
          rw
            (
              value_step_sensitive key k v path t hidden,
              value_step_sensitive key' k w path' t' hidden,
            )
            refl
      | inr shown ↦
          let same : w ≡ hide v = rw (e, shown) refl in
          rw (value_step_open key k v path t shown, value_step_open key' k w path' t' shown, same) h
    ]

    mutual
      unfolding hide redact_node

      redact_node-hide :
          (v : Json) (path path' : Text) (t t' : Trace)
          → (redact_node key v path t).0 ≡ (redact_node key' (hide v) path' t').0
      redact_node-hide (obj fs) path path' t t' = ap obj (redact_fields-hide fs path path' t t')
      redact_node-hide (arr vs) path path' t t' = ap arr (redact_items-hide vs path path' 0 0 t t')
      redact_node-hide null path path' t t' = refl
      redact_node-hide (bool b) path path' t t' = refl
      redact_node-hide (int n) path path' t t' = refl
      redact_node-hide (float n) path path' t t' = refl
      redact_node-hide (str n) path path' t t' = refl

      pub redact_fields-hide :
          (fs : Fields) (path path' : Text) (t t' : Trace)
          → (redact_fields key fs path t).0 ≡ (redact_fields key' (hide_fields fs) path' t').0
      redact_fields-hide end path path' t t' = refl
      redact_fields-hide (field k v fs) path path' t t' =
          let w = (if is_sensitive_key k then null else hide v) in
          let here = value_step-hide k v w path path' t t' refl (redact_node-hide v _ _ t t') in
          let rest =
            redact_fields-hide fs path path' (value_step key k v path t).1
              (value_step key' k w path' t').1 in
          ap (λ x. x.0) (redact_fields_field key k v fs path t)
          ∙ (cc)
          ∙ sym (ap (λ x. x.0) (redact_fields_field key' k w (hide_fields fs) path' t'))

      redact_items-hide :
          (vs : Items) (path path' : Text) (i i' : ℕ) (t t' : Trace)
          → (redact_items key vs path i t).0 ≡ (redact_items key' (hide_items vs) path' i' t').0
      redact_items-hide nil path path' i i' t t' = refl
      redact_items-hide (cons v vs) path path' i i' t t' =
          let here = redact_node-hide v (item_path path i) (item_path path' i') t t' in
          let rest =
            redact_items-hide vs path path' (suc i) (suc i')
              (redact_node key v (item_path path i) t).1
              (redact_node key' (hide v) (item_path path' i') t').1 in
          ap (λ x. x.0) (redact_items_cons key v vs path i t)
          ∙ (cc)
          ∙ sym (ap (λ x. x.0) (redact_items_cons key' (hide v) (hide_items vs) path' i' t'))

  -- Two alerts that differ only in the values under sensitive keys are redacted to the same alert,
  -- whatever the fingerprint keys are and whether or not a trace is recorded: no character of such a
  -- value reaches a prompt, and the recording entry point sends what the production one sends.
  pub redact_alert-hide :
      (key key' : Bytes) (v w : Json)
      → hide v ≡ hide w
      → redact_alert key v ≡ (redact_alert_with_trace key' w).0
  unfolding redact_alert redact_alert_with_trace
  redact_alert-hide key key' v w h =
      redact_node-hide key key' v _ [] none none
      ∙ ap (λ x. (redact_node key' x [] none).0) h
      ∙ sym (redact_node-hide key' key' w _ [] _ none)

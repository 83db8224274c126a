-- ===== src/Assistant/Redact/Steps.antt =====
-- One field and one item of the redaction of redact.py, as equations.
use alertmind.Prelude.{ℕ, suc, ◌≡◌, refl, true, false, [], ◌∷◌, if◌then◌else◌}
use alertmind.Text.{Text}
use alertmind.Platform.{Platform, Bytes}
use alertmind.Json.{Json, Items, cons, Fields, field}
use alertmind.Assistant.Redact.{
  Trace, add_rows, child_path, item_path, is_sensitive_key, sensitive_mark, sensitive_row,
  redact_node, redact_fields, redact_items,
}

module _ ⦃p : Platform⦄ (key : Bytes) where
  unfoldable pub value_step : Text → Json → Text → Trace → Json × Trace
  value_step k v path t =
      if is_sensitive_key k
      then (sensitive_mark, add_rows t (sensitive_row key (child_path path k) v ∷ []))
      else redact_node key v (child_path path k) t

  pub value_step_sensitive :
      (k : Text) (v : Json) (path : Text) (t : Trace)
      → is_sensitive_key k ≡ true
      → value_step k v path t
        ≡ (sensitive_mark, add_rows t (sensitive_row key (child_path path k) v ∷ []))
  unfolding value_step
  value_step_sensitive k v path t h = rw h refl

  pub value_step_open :
      (k : Text) (v : Json) (path : Text) (t : Trace)
      → is_sensitive_key k ≡ false
      → value_step k v path t ≡ redact_node key v (child_path path k) t
  unfolding value_step
  value_step_open k v path t h = rw h refl

  pub redact_fields_field :
      (k : Text) (v : Json) (fs : Fields) (path : Text) (t : Trace)
      → redact_fields key (field k v fs) path t ≡ (
        field k (value_step k v path t).0 (redact_fields key fs path (value_step k v path t).1).0,
        (redact_fields key fs path (value_step k v path t).1).1,
      )
  unfolding value_step redact_node
  redact_fields_field k v fs path t = refl

  pub redact_items_cons :
      (v : Json) (vs : Items) (path : Text) (i : ℕ) (t : Trace)
      → redact_items key (cons v vs) path i t ≡ (
        cons
            (redact_node key v (item_path path i) t).0
            (redact_items key vs path (suc i) (redact_node key v (item_path path i) t).1).0,
        (redact_items key vs path (suc i) (redact_node key v (item_path path i) t).1).1,
      )
  unfolding redact_node
  redact_items_cons v vs path i t = refl

-- ===== src/Assistant/Redact/Trace.antt =====
-- What the trace of redact.py holds.
use mathlib.Core.List.{append_assoc, append-nil}
use alertmind.Prelude.{
  ℕ, suc, ◌-◌, ◌≡◌, refl, ap, sym, ◌∙◌, subst, ◌⊎◌, false, inl, inr, Bool-cases, Option-cases, List,
  [], ◌∷◌, ◌++◌, Option, none, some, zero, append-empty, map-empty, All, All-append, length,
  is_empty,
}
use alertmind.Text.{Text}
use alertmind.Platform.{Platform, Bytes}
use alertmind.Json.{
  Json, null, bool, int, float, str, arr, obj, Items, nil, cons, Fields, end, field,
}
use alertmind.Regex.{Re, Found, match_at, find_from, find_all, sub_from, sub}
use alertmind.Regex.Meaning.{In, In-append}
use alertmind.Assistant.Redact.Origin.{
  below, field_values, item_values, IsSanitized, IsSanitized-wider, match_rows-IsSanitized,
  sensitive_row-IsSanitized,
}
use alertmind.Assistant.Redact.Steps.{
  value_step, value_step_sensitive, value_step_open, redact_fields_field,
}
use alertmind.Assistant.Redact.Rules.{Rule, rules}
use alertmind.Assistant.Redact.{
  Trace, Row, is_sensitive_key, redact_node, redact_fields, redact_items, apply_rules, redact_text,
  matched_by, matched_values, match_rows, tagged, sensitive_row, child_path, item_path,
}

Nat-cases : (n : ℕ) → (n ≡ 0) ⊎ ((m : ℕ) × (n ≡ suc m))
Nat-cases zero = inl refl
Nat-cases (suc m) = inr (m, refl)

module _ ⦃p : Platform⦄ where
  sub_from_of_find :
      (r : Re) (by : Found → Text) (before : Option ℕ) (s : Text)
      → find_from r zero before s ≡ []
      → sub_from r by zero before s ≡ s
  unfolding find_from sub_from
  sub_from_of_find r by before [] h = refl
  sub_from_of_find r by before (c ∷ s) h = elim (Option-cases (match_at r before (c ∷ s))) [
    | inl missed ↦
        let e : find_from r zero before (c ∷ s) ≡ find_from r zero (some c) s =
          rw (missed, find_from) refl in
        rw (missed, sub_from) (ap (λ t. c ∷ t) (sub_from_of_find r by (some c) s (sym e ∙ h)))
    | inr (d, found) ↦ elim (Nat-cases (length (c ∷ s) - length d.rest)) [
      | inl blank ↦
          let e : find_from r zero before (c ∷ s) ≡ find_from r zero (some c) s =
            rw (found, blank, find_from) refl in
          rw (found, blank, sub_from)
            (ap (λ t. c ∷ t) (sub_from_of_find r by (some c) s (sym e ∙ h)))
      | inr (n, read) ↦
          let e : is_empty (find_from r zero before (c ∷ s)) ≡ false =
            rw (found, read, find_from) refl in
          cc
    ]
  ]

  tagged_empty : (name : Text) (fs : List Found) → tagged name fs ≡ [] → fs ≡ []
  tagged_empty name [] h = refl
  tagged_empty name (f ∷ fs) h = cc

  apply_rules_of_matched : (rs : List Rule) (s : Text) → matched_by rs s ≡ [] → apply_rules rs s ≡ s
  unfolding apply_rules matched_by sub find_all
  apply_rules_of_matched [] s h = refl
  apply_rules_of_matched (r ∷ rs) s h =
      let (here, later) = append-empty _ _ h in
      let same = sub_from_of_find r.pattern r.replacement none s (tagged_empty r.name _ here) in
      rw same (apply_rules_of_matched rs s later)

  -- A text in which nothing is matched is left.
  redact_text_of_rows :
      (key : Bytes) (path s : Text) → match_rows key path s ≡ [] → redact_text s ≡ s
  unfolding redact_text match_rows matched_values
  redact_text_of_rows key path s h = apply_rules_of_matched rules s (map-empty _ _ h)

  -- The rows that a part adds are about its values, and a part that adds none is left as it is.
  abbrev Adds : {A : Type 0} → Bytes → List Json → A → List Row → A × Trace → Type 0
  Adds key values v old out =
      (rows : List Row) × ((out.1 ≡ some (old ++ rows))
        × (All (IsSanitized key values) rows × (rows ≡ [] → out.0 ≡ v)))

  Adds-nothing :
      {A : Type 0} (key : Bytes) (values : List Json) (v : A) (old : List Row)
      → Adds key values v old (v, some old)
  Adds-nothing key values v old = ([], (ap some (sym (append-nil old)), (tt, λ _. refl)))

  before_all : (vs ws : List Json) (v : Json) → In v vs → In v (vs ++ ws)
  before_all vs ws v h = (In-append v vs ws).1 (inl h)

  behind_all : (vs ws : List Json) (v : Json) → In v ws → In v (vs ++ ws)
  behind_all vs ws v h = (In-append v vs ws).1 (inr h)

  module _ (key : Bytes) where
    -- A part and what comes behind it.
    both :
        {A B : Type 0} (vs ws : List Json) (f : A → B → B) (v : A) (w : B) (old : List Row)
        (here : A × Trace) (go : Trace → B × Trace)
        → Adds key vs v old here
        → ((new : List Row) → Adds key ws w new (go (some new)))
        → Adds key (vs ++ ws) (f v w) old (f here.0 (go here.1).0, (go here.1).1)
    both vs ws f v w old here go (rows, (grown, (clean, same))) later =
        let (rows', (grown', (clean', same'))) = later (old ++ rows) in
        rw grown (
          rows ++ rows',
          (
            grown' ∙ ap some (append_assoc old rows rows'),
            (
              All-append (IsSanitized key (vs ++ ws)) rows rows'
                  (IsSanitized-wider key vs (vs ++ ws) (before_all vs ws) rows clean)
                  (IsSanitized-wider key ws (vs ++ ws) (behind_all vs ws) rows' clean'),
              λ h. let (a, b) = append-empty rows rows' h in rw (same a, same' b) refl,
            ),
          ),
        )

    value_step-Adds :
        (k : Text) (v : Json) (path : Text) (old : List Row)
        → Adds key (v ∷ below v) v old (redact_node key v (child_path path k) (some old))
        → Adds key (v ∷ below v) v old (value_step key k v path (some old))
    value_step-Adds k v path old node = elim (Bool-cases (is_sensitive_key k)) [
      | inl hidden ↦ rw (value_step_sensitive key k v path (some old) hidden) (
        sensitive_row key (child_path path k) v ∷ [],
        (refl, ((sensitive_row-IsSanitized key _ v (below v), tt), λ h. cc)),
      )
      | inr shown ↦ rw (value_step_open key k v path (some old) shown) node
    ]

    mutual
      unfolding redact_node below

      redact_node-Adds :
          (v : Json) (path : Text) (old : List Row)
          → Adds key (v ∷ below v) v old (redact_node key v path (some old))
      redact_node-Adds null path old = Adds-nothing key _ null old
      redact_node-Adds (bool b) path old = Adds-nothing key _ (bool b) old
      redact_node-Adds (int b) path old = Adds-nothing key _ (int b) old
      redact_node-Adds (float b) path old = Adds-nothing key _ (float b) old
      redact_node-Adds (str s) path old = (
        match_rows key path s,
        (refl, (match_rows-IsSanitized key path s, λ h. ap str (redact_text_of_rows key path s h))),
      )
      redact_node-Adds (obj fs) path old =
          let (rows, (grown, (clean, same))) = redact_fields-Adds fs path old in
          (
            rows,
            (
              grown,
              (
                IsSanitized-wider key (field_values fs) (obj fs ∷ field_values fs)
                    (behind_all (obj fs ∷ []) (field_values fs)) rows clean,
                λ h. ap obj (same h),
              ),
            ),
          )
      redact_node-Adds (arr vs) path old =
          let (rows, (grown, (clean, same))) = redact_items-Adds vs path 0 old in
          (
            rows,
            (
              grown,
              (
                IsSanitized-wider key (item_values vs) (arr vs ∷ item_values vs)
                    (behind_all (arr vs ∷ []) (item_values vs)) rows clean,
                λ h. ap arr (same h),
              ),
            ),
          )

      redact_fields-Adds :
          (fs : Fields) (path : Text) (old : List Row)
          → Adds key (field_values fs) fs old (redact_fields key fs path (some old))
      redact_fields-Adds end path old = Adds-nothing key _ end old
      redact_fields-Adds (field k v fs) path old =
          subst (λ out. Adds key (field_values (field k v fs)) (field k v fs) old out)
            (sym (redact_fields_field key k v fs path (some old)))
            (both (v ∷ below v) (field_values fs) (field k) v fs old
              (value_step key k v path (some old)) (redact_fields key fs path)
              (value_step-Adds k v path old (redact_node-Adds v (child_path path k) old))
              (λ new. redact_fields-Adds fs path new))

      redact_items-Adds :
          (vs : Items) (path : Text) (i : ℕ) (old : List Row)
          → Adds key (item_values vs) vs old (redact_items key vs path i (some old))
      redact_items-Adds nil path i old = Adds-nothing key _ nil old
      redact_items-Adds (cons v vs) path i old =
          both (v ∷ below v) (item_values vs) cons v vs old
            (redact_node key v (item_path path i) (some old)) (redact_items key vs path (suc i))
            (redact_node-Adds v (item_path path i) old)
            (λ new. redact_items-Adds vs path (suc i) new)

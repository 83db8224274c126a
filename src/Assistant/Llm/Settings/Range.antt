-- ===== src/Assistant/Llm/Settings/Range.antt =====
-- Which values `_number_env` of llm.py lets through.
use alertmind.Prelude.{
  Bool, true, false, not, if◌then◌else◌, ◌≡◌, ◌↔◌, ◌⊎◌, inl, inr, subst, refl, sym, ap, ◌∙◌, Option,
  none, some, [], is_empty, Bool-cases, arith,
}
use alertmind.Text.{Text, strip}
use alertmind.Assistant.Llm.Error.{done, done-injective}
use alertmind.Assistant.Llm.Settings.{
  Settings, env_or, Cast, Bounds, is_below, check_maximum, check_minimum, check_number, number_env,
}

pub some-injective : {A : Type 0} {a b : A} → some a ≡ some b → a ≡ b
some-injective h = cc

clash : (b : Bool) → b ≡ true → b ≡ false → ⊥
clash b h g = cc

module _ {A : Type 0} (cast : Cast A) (name : Text) (bounds : Bounds A) where
  NotAbove : Option A → A → Type 0
  NotAbove none value = Unit
  NotAbove (some high) value = cast.lt high value ≡ false

  -- Above the least value where it is exclusive, and otherwise not below it.
  AtLeast : Bool → A → A → Type 0
  AtLeast true low value = cast.lt low value ≡ true
  AtLeast false low value = cast.lt value low ≡ false

  NotBelow : Option A → A → Type 0
  unfolding AtLeast
  NotBelow none value = Unit
  NotBelow (some low) value = AtLeast bounds.minimum_exclusive low value

  is_below_iff :
      (value low : A)
      → (is_below cast name bounds value low ≡ false) ↔ AtLeast bounds.minimum_exclusive low value
  unfolding AtLeast
  is_below_iff value low = by_bound bounds.minimum_exclusive
    where
      by_bound :
          (b : Bool)
          → ((if b then not (cast.lt low value) else cast.lt value low) ≡ false)
            ↔ AtLeast b low value
      by_bound true = (λ h. negated (cast.lt low value) h, λ h. rw h refl)
        where
          negated : (c : Bool) → not c ≡ false → c ≡ true
          negated true h = refl
          negated false h = absurd (cc)
      by_bound false = (λ h. h, λ h. h)

  -- The value is finite, above the minimum or not below it, as the bounds say, and not above the
  -- maximum.
  unfoldable pub InRange : A → Type 0
  unfolding NotAbove NotBelow
  InRange value =
      (cast.is_finite value ≡ true) × NotBelow bounds.minimum value × NotAbove bounds.maximum value

  module _ (raw : Text) (value v : A) where
    check_maximum_iff :
        (high : Option A)
        → (check_maximum cast name bounds raw value high ≡ done (some v))
          ↔ ((value ≡ v) × NotAbove high value)
    unfolding check_maximum NotAbove
    check_maximum_iff none = (λ h. (ground arith, tt), λ h. ground arith)
    check_maximum_iff (some high) = (λ h. ground arith, λ h. ground arith)

    check_minimum_iff :
        (low : Option A)
        → (check_minimum cast name bounds raw value low ≡ done (some v))
          ↔ ((value ≡ v) × NotBelow low value × NotAbove bounds.maximum value)
    unfolding check_minimum NotBelow AtLeast
    check_minimum_iff none =
        let (to, from) = check_maximum_iff bounds.maximum in
        (λ h. let (e, a) = to h in (e, tt, a), λ h. from (h.0, h.2))
    check_minimum_iff (some low) = elim (Bool-cases (is_below cast name bounds value low)) [
      | inl below ↦ rw below (
        λ h. absurd (cc),
        λ h.
            absurd
              (clash (is_below cast name bounds value low) below ((is_below_iff value low).1 h.1)),
      )
      | inr fits ↦
          let (to, from) = check_maximum_iff bounds.maximum in
          rw fits (
            λ h. let (e, a) = to h in (e, (is_below_iff value low).0 fits, a),
            λ h. from (h.0, h.2),
          )
    ]

  check_number_iff :
      (raw : Text) (v : A) (read : Option A)
      → (check_number cast name bounds raw read ≡ done (some v)) ↔ ((read ≡ some v) × InRange v)
  unfolding check_number InRange
  check_number_iff raw v none = (λ h. absurd (cc), λ h. absurd (cc))
  check_number_iff raw v (some value) =
      let (to, from) = check_minimum_iff raw value v bounds.minimum in
      elim (Bool-cases (cast.is_finite value)) [
        | inl finite ↦ rw finite (
          λ h.
              let (e, low, high) = to h in
              (
                ap some e,
                (
                  ap cast.is_finite (sym e) ∙ finite,
                  subst (NotBelow bounds.minimum) e low,
                  subst (NotAbove bounds.maximum) e high,
                ),
              ),
          λ g.
              let e = some-injective g.0 in
              from (
                e,
                subst (NotBelow bounds.minimum) (sym e) g.1.1,
                subst (NotAbove bounds.maximum) (sym e) g.1.2,
              ),
        )
        | inr endless ↦ rw endless (
          λ h. absurd (cc),
          λ g. absurd (
              clash (cast.is_finite value) (ap cast.is_finite (some-injective g.0) ∙ g.1.0)
                endless),
        )
      ]

  -- A setting has a value exactly if its text is blank and the default is that value, or its text
  -- is read as that value and the value is finite and within the bounds.
  pub number_env_iff :
      (s : Settings) (v : A)
      → (number_env cast name bounds s ≡ done (some v)) ↔ (
          ((is_empty (strip (env_or s name [])) ≡ true) × (bounds.default ≡ some v))
          ⊎ ((is_empty (strip (env_or s name [])) ≡ false)
              × (cast.read (strip (env_or s name [])) ≡ some v)
              × InRange v))
  unfolding number_env
  number_env_iff s v = elim (Bool-cases (is_empty (strip (env_or s name [])))) [
    | inl blank ↦ rw blank (
      λ h. inl (refl, done-injective h),
      λ g. elim g [ inl (_, e) ↦ ap done e | inr (e, _, _) ↦ absurd (cc) ],
    )
    | inr set ↦
        let (to, from) =
          check_number_iff (strip (env_or s name [])) v (cast.read (strip (env_or s name []))) in
        rw set (
          λ h. let (e, r) = to h in inr (refl, e, r),
          λ g. elim g [ inl (e, _) ↦ absurd (cc) | inr (_, e, r) ↦ from (e, r) ],
        )
  ]

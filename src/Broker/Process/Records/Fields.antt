-- ===== src/Broker/Process/Records/Fields.antt =====
-- The fields of a process's arguments and environment, put together again.
use alertmind.Prelude.{
  Bool, true, false, ◌&&◌, ◌≡◌, refl, sym, ap, ◌∙◌, ◌⊎◌, inl, inr, List, [], ◌∷◌, ◌++◌, Option,
  none, some, nat_eq, nat_eq_iff, is_empty, is_empty_nil, if◌then◌else◌, Bool-cases, Option-cases,
}
use alertmind.Text.{join, split_on}
use alertmind.Text.Split.{join-split_on}
use alertmind.Platform.{Bytes}
use alertmind.Result.{Result, ok, ◌>>◌, after_ok, after_require, ok-injective}
use alertmind.Broker.Process.Records.{nul_fields, before_nul, split_fields}

some-injective : {A : Type 0} {a b : A} → some a ≡ some b → a ≡ b
some-injective h = cc

before_nul-append : (raw s : Bytes) → before_nul raw ≡ some s → raw ≡ s ++ 0 ∷ []
unfolding before_nul
before_nul-append [] s h = absurd (cc)
before_nul-append (c ∷ []) s h = elim (Bool-cases (nat_eq c 0)) [
  | inl zero' ↦
      let e : before_nul (c ∷ []) ≡ some [] = rw (zero', before_nul) refl in
      let c0 : c ≡ 0 = (nat_eq_iff c 0).0 zero' in
      ap (λ d. d ∷ []) c0 ∙ ap (λ t. t ++ 0 ∷ []) (some-injective (sym e ∙ h))
  | inr other ↦ let e : before_nul (c ∷ []) ≡ none = rw (other, before_nul) refl in absurd (cc)
]
before_nul-append (c ∷ d ∷ raw) s h = elim (Option-cases (before_nul (d ∷ raw))) [
  | inl e ↦ let e' : before_nul (c ∷ d ∷ raw) ≡ none = rw (e, before_nul) refl in absurd (cc)
  | inr (t, e) ↦
      let e' : before_nul (c ∷ d ∷ raw) ≡ some (c ∷ t) = rw (e, before_nul) refl in
      ap (λ r. c ∷ r) (before_nul-append (d ∷ raw) t e)
      ∙ ap (λ r. r ++ 0 ∷ []) (some-injective (sym e' ∙ h))
]

guarded :
    (b : Bool) (m n : Result (Unit {0})) (fields fields' : List Bytes)
    → ((if b then m else n) >> ok fields) ≡ ok fields'
    → fields ≡ fields'
guarded b m n fields fields' h = after_ok (if b then m else n) h (λ _ _ e. ok-injective e)

split_fields-split_on :
    (environment : Bool) (o : Option Bytes) (fields : List Bytes)
    → split_fields environment o ≡ ok fields
    → (body : Bytes) × (o ≡ some body) × (fields ≡ split_on 0 body)
split_fields-split_on environment none fields h = absurd (cc)
split_fields-split_on environment (some body) fields h =
    (body, refl, sym (guarded environment _ _ (split_on 0 body) fields h))

chosen :
    (b : Bool) (x : Result (List Bytes)) (fields : List Bytes)
    → (if b then ok [] else x) ≡ ok fields
    → ((b ≡ true) × (fields ≡ [])) ⊎ (x ≡ ok fields)
chosen true x fields h = inl (refl, sym (ok-injective h))
chosen false x fields h = inr h

both : (a b : Bool) → a && b ≡ true → (a ≡ true) × (b ≡ true)
both true b h = (refl, h)
both false b h = absurd (cc)

-- The fields that are read from the arguments or the environment of a process make up the bytes
-- again, each with a zero behind it, but for an environment of no bytes, which has no fields.
pub nul_fields-join :
    (environment : Bool) (raw : Bytes) (fields : List Bytes)
    → nul_fields environment raw ≡ ok fields
    → (raw ≡ join (0 ∷ []) fields ++ 0 ∷ []) ⊎ ((environment ≡ true) × (raw ≡ []) × (fields ≡ []))
unfolding nul_fields
nul_fields-join environment raw fields h = after_require _ _ h (λ _ h1.
    elim (chosen (environment && is_empty raw) _ fields h1) [
      | inl (blank, none') ↦
          let (env, empty) = both environment (is_empty raw) blank in
          inr (env, is_empty_nil raw empty, none')
      | inr split ↦
          let (body, e, e') = split_fields-split_on environment (before_nul raw) fields split in
          inl (
            before_nul-append raw body e
            ∙ ap (λ t. t ++ 0 ∷ []) (sym (join-split_on 0 body) ∙ ap (join (0 ∷ [])) (sym e')))
    ])

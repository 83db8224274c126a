-- ===== src/Text/Split.antt =====
-- Splitting a text at a character and joining the parts with it.
use alertmind.Prelude.{
  ℕ, ◌≡◌, refl, sym, ap, ◌∙◌, false, List, [], ◌∷◌, nat_eq, nat_eq_iff, is_empty, Bool-cases, inl,
  inr,
}
use alertmind.Text.{Text, join, split_on, split_step}

module _ (sep : ℕ) where
  split_step-filled :
      (c : ℕ) (parts : List Text)
      → is_empty parts ≡ false
      → is_empty (split_step sep c parts) ≡ false
  split_step-filled c [] h = absurd (cc)
  split_step-filled c (a ∷ parts) h = elim (Bool-cases (nat_eq c sep)) [
    | inl same ↦ rw same refl
    | inr other ↦ rw other refl
  ]

  split_on-filled : (s : Text) → is_empty (split_on sep s) ≡ false
  unfolding split_on
  split_on-filled [] = refl
  split_on-filled (c ∷ s) = split_step-filled c (split_on sep s) (split_on-filled s)

  join_longer :
      (c : ℕ) (a : Text) (parts : List Text)
      → join (sep ∷ []) ((c ∷ a) ∷ parts) ≡ c ∷ join (sep ∷ []) (a ∷ parts)
  unfolding join
  join_longer c a [] = refl
  join_longer c a (b ∷ parts) = refl

  join-split_step :
      (c : ℕ) (parts : List Text)
      → is_empty parts ≡ false
      → join (sep ∷ []) (split_step sep c parts) ≡ c ∷ join (sep ∷ []) parts
  unfolding join
  join-split_step c [] h = absurd (cc)
  join-split_step c (a ∷ parts) h = elim (Bool-cases (nat_eq c sep)) [
    | inl same ↦
        let e : c ≡ sep = (nat_eq_iff c sep).0 same in
        rw same (ap (λ d. d ∷ join (sep ∷ []) (a ∷ parts)) (sym e))
    | inr other ↦ rw other (join_longer c a parts)
  ]

  pub join-split_on : (s : Text) → join (sep ∷ []) (split_on sep s) ≡ s
  unfolding split_on join
  join-split_on [] = refl
  join-split_on (c ∷ s) =
      join-split_step c (split_on sep s) (split_on-filled s) ∙ ap (λ t. c ∷ t) (join-split_on s)

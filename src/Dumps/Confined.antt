-- ===== src/Dumps/Confined.antt =====
-- Where a text that begins with `<` can stand in a printed value: inside one string or one key.
pub mod Values
use mathlib.Core.List.{append_assoc}
use alertmind.Prelude.{
  ℕ, zero, suc, ◌+◌, ◌-◌, ◌%◌, ◌/◌, ◌≡◌, refl, ap, sym, ◌∙◌, subst, ◌⊎◌, inl, inr, Bool, true,
  false, ◌||◌, ◌&&◌, List, [], ◌∷◌, ◌++◌, Option, some, none, arith, All, All-append, Bool-cases,
  nat_eq, nat_eq_iff, not, ltb, leb, is_some, Option-cases, if◌then◌else◌,
}
use alertmind.Text.{Text, text, after?, starts_with, is_in, int_text}
use alertmind.Text.Digits.{int_text-All}
use alertmind.Platform.{Platform}
use alertmind.Json.{
  Json, null, bool, int, float, str, arr, obj, Items, nil, cons, Fields, end, field,
}
use alertmind.Dumps.{
  Style, dump, dump_items, dump_fields, escape, escape_char, hex_escape, hex_digit, quote, newline,
  spaces, backslash,
}
use alertmind.Dumps.Mentions.{mentions, mentions_items, mentions_fields, IsPlain, is_plain}

-- No `<` in it.
abbrev pub IsClean : Text → Type 0
IsClean = All (λ c. nat_eq 60 c ≡ false)

-- How a character is printed: as it is, or as an escape.
Shape : ℕ → Text → Type 0
Shape c x = (x ≡ c ∷ []) ⊎ ((w : Text) × (x ≡ backslash ∷ w) × IsClean w)

pick : (c : ℕ) (b : Bool) (x y : Text) → Shape c x → Shape c y → Shape c (if b then x else y)
pick c true x y h k = h
pick c false x y h k = k

hex_digit-clean : (m : ℕ) → nat_eq 60 (hex_digit (m % 16)) ≡ false
hex_digit-clean m = ground arith

hex_escape-IsClean : (n : ℕ) → IsClean (hex_escape n)
unfolding hex_escape
hex_escape-IsClean n = (
  refl,
  (refl, (hex_digit-clean _, (hex_digit-clean _, (hex_digit-clean _, (hex_digit-clean n, tt))))),
)

escaped : (c : ℕ) (w : Text) → IsClean w → Shape c (backslash ∷ w)
unfolding Shape
escaped c w h = inr (w, refl, h)

hex_escaped : (c n : ℕ) (w : Text) → IsClean w → Shape c (hex_escape n ++ w)
unfolding hex_escape
hex_escaped c n w h =
    escaped c _
      (refl, (hex_digit-clean _, (hex_digit-clean _, (hex_digit-clean _, (hex_digit-clean n, h)))))

as_it_is : (c : ℕ) → Shape c (c ∷ [])
unfolding Shape
as_it_is c = inl refl

hex_escaped_one : (c n : ℕ) → Shape c (hex_escape n)
unfolding hex_escape
hex_escaped_one c n = hex_escaped c n [] tt

escape_char-Shape : (a : Bool) (c : ℕ) → Shape c (escape_char a c)
unfolding escape_char
escape_char-Shape a c = pick c _ _ _ (escaped c (34 ∷ []) (refl, tt)) (
    pick c _ _ _ (escaped c (92 ∷ []) (refl, tt)) (
      pick c _ _ _ (escaped c (110 ∷ []) (refl, tt)) (
        pick c _ _ _ (escaped c (114 ∷ []) (refl, tt)) (
          pick c _ _ _ (escaped c (116 ∷ []) (refl, tt)) (
            pick c _ _ _ (escaped c (102 ∷ []) (refl, tt)) (
              pick c _ _ _ (escaped c (98 ∷ []) (refl, tt)) (
                pick c _ _ _ (hex_escaped_one c c) (
                  pick c _ _ _ (hex_escaped c _ _ (hex_escape-IsClean _))
                    (pick c _ _ _ (hex_escaped_one c c) (as_it_is c))))))))))

module _ (u : Text) (plain_u : IsPlain u) where
  abbrev t : Text
  t = 60 ∷ u

  -- A part of a print is confined if the text can stand in it only where `P` holds.
  Confined : Text → Type 0 → Type 0
  Confined a P = (r : Text) → is_in t (a ++ r) ≡ true → P ⊎ (is_in t r ≡ true)

  confined_clean : (P : Type 0) (a : Text) → IsClean a → Confined a P
  unfolding Confined is_in starts_with after?
  confined_clean P [] h r e = inr e
  confined_clean P (c ∷ a) (h, hs) r e = confined_clean P a hs r (ground arith)

  confined_append : (P : Type 0) (a b : Text) → Confined a P → Confined b P → Confined (a ++ b) P
  unfolding Confined
  confined_append P a b f g r e = elim (f (b ++ r) (ap (is_in t) (sym (append_assoc a b r)) ∙ e)) [
    | inl held ↦ inl held
    | inr later ↦ g r later
  ]

  weaken : {P Q : Type 0} (a : Text) → (P → Q) → Confined a P → Confined a Q
  unfolding Confined
  weaken a q f r e = elim (f r e) [ inl held ↦ inl (q held) | inr later ↦ inr later ]

-- A prefix of plain characters in an escaped text is one of the text.
starts_with_escaped :
    (a : Bool) (v s r : Text)
    → IsPlain v
    → starts_with v (escape a s ++ 34 ∷ r) ≡ true
    → starts_with v s ≡ true
unfolding starts_with after? escape Shape
starts_with_escaped a [] s r h e = refl
starts_with_escaped a (x ∷ v) [] r (h, hs) e = ground arith
starts_with_escaped a (x ∷ v) (d ∷ s) r (h, hs) e = elim (escape_char-Shape a d) [
  | inl same ↦
      let e' = subst (λ y. starts_with (x ∷ v) ((y ++ escape a s) ++ 34 ∷ r) ≡ true) same e in
      ground (arith, starts_with_escaped a v s r hs)
  | inr (w, longer, clean) ↦
      let e' = subst (λ y. starts_with (x ∷ v) ((y ++ escape a s) ++ 34 ∷ r) ≡ true) longer e in
      ground arith
]

module _ (u : Text) (plain_u : IsPlain u) where
  here_or_later :
      (c : ℕ) (x : Text)
      → is_in (t u plain_u) (c ∷ x) ≡ true
      → (starts_with (t u plain_u) (c ∷ x) ≡ true) ⊎ (is_in (t u plain_u) x ≡ true)
  unfolding is_in
  here_or_later c x e = elim (Bool-cases (starts_with (t u plain_u) (c ∷ x))) [
    | inl here ↦ inl here
    | inr other ↦ inr (ground arith)
  ]

  later_in : (c : ℕ) (s : Text) → is_in (t u plain_u) s ≡ true → is_in (t u plain_u) (c ∷ s) ≡ true
  unfolding is_in
  later_in c s e = ground arith

  here_in :
      (c : ℕ) (x s : Text)
      → starts_with (t u plain_u) (c ∷ x) ≡ true
      → (starts_with u x ≡ true → starts_with u s ≡ true)
      → is_in (t u plain_u) (c ∷ s) ≡ true
  unfolding is_in starts_with after?
  here_in c x s e f = ground arith

  skip_escape :
      (w x : Text)
      → IsClean w
      → is_in (t u plain_u) ((backslash ∷ w) ++ x) ≡ true
      → ⊥ ⊎ (is_in (t u plain_u) x ≡ true)
  unfolding Confined
  skip_escape w x clean e = confined_clean u plain_u ⊥ (backslash ∷ w) (refl, clean) x e

  escape_in :
      (a : Bool) (s r : Text)
      → is_in (t u plain_u) (escape a s ++ 34 ∷ r) ≡ true
      → (is_in (t u plain_u) s ≡ true) ⊎ (is_in (t u plain_u) r ≡ true)
  unfolding escape Confined Shape
  escape_in a [] r e = confined_clean u plain_u _ (34 ∷ []) (refl, tt) r e
  escape_in a (c ∷ s) r e = elim (escape_char-Shape a c) [
    | inl same ↦
        let e' = subst (λ y. is_in (t u plain_u) ((y ++ escape a s) ++ 34 ∷ r) ≡ true) same e in
        elim (here_or_later c (escape a s ++ 34 ∷ r) e') [
          | inl here ↦
              inl (here_in c (escape a s ++ 34 ∷ r) s here (starts_with_escaped a u s r plain_u))
          | inr later ↦ elim (escape_in a s r later) [
            | inl found ↦ inl (later_in c s found)
            | inr behind ↦ inr behind
          ]
        ]
    | inr (w, longer, clean) ↦
        let e' = subst (λ y. is_in (t u plain_u) ((y ++ escape a s) ++ 34 ∷ r) ≡ true) longer e in
        elim (skip_escape w (escape a s ++ 34 ∷ r) clean (
          ap (is_in (t u plain_u)) (sym (append_assoc (backslash ∷ w) (escape a s) (34 ∷ r)))
          ∙ e')) [
            | inl never ↦ absurd never
            | inr later ↦ elim (escape_in a s r later) [
              | inl found ↦ inl (later_in c s found)
              | inr behind ↦ inr behind
            ]
          ]
  ]

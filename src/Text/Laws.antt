-- ===== src/Text/Laws.antt =====
-- Equality, prefixes and substrings of texts.
use mathlib.Core.List.{append-nil}
use alertmind.Prelude.{
  ◌≡◌, refl, subst, ◌↔◌, inl, inr, true, [], ◌∷◌, ◌++◌, some, arith, Option-cases,
}
use alertmind.Text.{Text, text_eq, after?, starts_with, is_in}

pub text_eq_sound : (s t : Text) → text_eq s t ≡ true → s ≡ t
unfolding text_eq
text_eq_sound [] [] h = refl
text_eq_sound (c ∷ s) (d ∷ t) h = ground (arith, text_eq_sound s t)
text_eq_sound [] (d ∷ t) h = cc
text_eq_sound (c ∷ s) [] h = cc

pub text_eq_refl : (s : Text) → text_eq s s ≡ true
unfolding text_eq
text_eq_refl [] = refl
text_eq_refl (c ∷ s) = ground (arith, text_eq_refl s)

pub text_eq_iff : (s t : Text) → (text_eq s t ≡ true) ↔ (s ≡ t)
text_eq_iff s t = (text_eq_sound s t, λ p. rw p (text_eq_refl t))

pub after?-append : (p s : Text) → after? p (p ++ s) ≡ some s
unfolding after?
after?-append [] s = refl
after?-append (c ∷ p) s = ground (arith, after?-append p s)

-- A prefix stays one when text is added behind.
pub after?-append_right : (p s t r : Text) → after? p s ≡ some r → after? p (s ++ t) ≡ some (r ++ t)
unfolding after?
after?-append_right [] s t r h = ground arith
after?-append_right (c ∷ p) [] t r h = cc
after?-append_right (c ∷ p) (d ∷ s) t r h = ground (arith, after?-append_right p s t r)

pub starts_with_append : (p s : Text) → starts_with p (p ++ s) ≡ true
unfolding starts_with
starts_with_append p s = ground (arith, after?-append p s)

pub starts_with-append : (p s t : Text) → starts_with p s ≡ true → starts_with p (s ++ t) ≡ true
unfolding starts_with
starts_with-append p s t h = elim (Option-cases (after? p s)) [
  | inl e ↦ ground arith
  | inr (r, e) ↦ ground (arith, after?-append_right p s t r)
]

pub is_in_of_starts_with : (p s : Text) → starts_with p s ≡ true → is_in p s ≡ true
unfolding is_in
is_in_of_starts_with p [] h = h
is_in_of_starts_with p (c ∷ s) h = ground arith

pub is_in-append_right : (p s t : Text) → is_in p s ≡ true → is_in p (s ++ t) ≡ true
unfolding is_in
is_in-append_right p [] t h = is_in_of_starts_with p t (starts_with-append p [] t h)
is_in-append_right p (c ∷ s) t h =
    ground (arith, starts_with-append p (c ∷ s) t, is_in-append_right p s t)

pub is_in-append_left : (p s t : Text) → is_in p t ≡ true → is_in p (s ++ t) ≡ true
unfolding is_in
is_in-append_left p [] t h = h
is_in-append_left p (c ∷ s) t h = ground (arith, is_in-append_left p s t h)

pub is_in_self : (p : Text) → is_in p p ≡ true
is_in_self p =
    is_in_of_starts_with p p
      (subst (λ q. starts_with p q ≡ true) (append-nil p) (starts_with_append p []))

-- A text that stands in the middle is found.
pub is_in_middle : (a p b : Text) → is_in p (a ++ (p ++ b)) ≡ true
is_in_middle a p b = is_in-append_left p a (p ++ b) (is_in-append_right p p b (is_in_self p))

-- ===== src/Regex/Replace.antt =====
-- A scan without a match changes nothing, and what a scan reads.
use alertmind.Prelude.{ℕ, zero, ◌≡◌, refl, ap, false, [], ◌∷◌, Option, none, some, arith}
use alertmind.Text.{Text}
use alertmind.Platform.{Platform}
use alertmind.Regex.{Re, Found, match_at, search_from, search, find_from, find_all, sub_from, sub}

module _ ⦃p : Platform⦄ (r : Re) where
  sub_from_of_search :
      (by : Found → Text) (before : Option ℕ) (s : Text)
      → search_from r before s ≡ false
      → sub_from r by zero before s ≡ s
  unfolding search_from sub_from
  sub_from_of_search by before [] h = refl
  sub_from_of_search by before (c ∷ s) h =
      let missed : match_at r before (c ∷ s) ≡ none = unfold match_at in ground arith in
      rw (missed, sub_from) (ap (λ t. c ∷ t) (sub_from_of_search by (some c) s (ground arith)))

  find_from_of_search :
      (before : Option ℕ) (s : Text)
      → search_from r before s ≡ false
      → find_from r zero before s ≡ []
  unfolding search_from find_from
  find_from_of_search before [] h = refl
  find_from_of_search before (c ∷ s) h =
      let missed : match_at r before (c ∷ s) ≡ none = unfold match_at in ground arith in
      rw (missed, find_from) (find_from_of_search (some c) s (ground arith))

  -- Where a pattern is not found, a substitution leaves the text and a scan yields nothing.
  pub sub_of_search :
      (by : Found → Text) (s : Text) → search r s ≡ false → (sub r by s ≡ s) × (find_all r s ≡ [])
  unfolding search sub find_all
  sub_of_search by s h = (sub_from_of_search by none s h, find_from_of_search none s h)

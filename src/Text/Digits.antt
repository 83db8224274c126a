-- ===== src/Text/Digits.antt =====
-- The characters of a printed number.
use alertmind.Prelude.{
  ℕ, zero, suc, ◌+◌, ◌%◌, ◌/◌, ◌<◌, ℤ, pos, negsuc, [], All, Bool-cases, inl, inr, ltb, ltb→lt,
  arith,
}
use alertmind.Text.{Text, digits_from, nat_text, int_text}

module _ (P : ℕ → Type 0) (digit : (d : ℕ) → d < 10 → P (b'0' + d)) where
  digits_from-All : (fuel n : ℕ) (rest : Text) → All P rest → All P (digits_from fuel n rest)
  unfolding digits_from
  digits_from-All zero n rest h = h
  digits_from-All (suc fuel) n rest h = elim (Bool-cases (ltb n 10)) [
    | inl small ↦ rw small (digit n (ltb→lt n 10 small), h)
    | inr large ↦ rw large (digits_from-All fuel (n / 10) _ (digit (n % 10) (omega arith), h))
  ]

  pub int_text-All : (n : ℤ) → P b'-' → All P (int_text n)
  unfolding int_text nat_text
  int_text-All (pos n) h = digits_from-All (suc n) n [] tt
  int_text-All (negsuc n) h = (h, digits_from-All (suc (suc n)) (suc n) [] tt)

-- ===== src/Assistant/Llm/Settings/Least.antt =====
-- The least values of the integer settings of llm.py.
use alertmind.Prelude.{
  or_else, ℤ, pos, negsuc, ℕ, ◌≤◌, false, ◌≡◌, refl, sym, subst, inl, inr, Option, none, some,
  arith,
}
use alertmind.Text.{Text}
use alertmind.Platform.{Platform}
use alertmind.Assistant.Llm.Error.{done, done-injective, after_done}
use alertmind.Assistant.Llm.Settings.{
  Settings, Bounds, int_lt, int_cast, number_env, int_setting, max_tokens,
}
use alertmind.Assistant.Llm.Settings.Range.{InRange, number_env_iff, some-injective}

-- The number is at least this one.
unfoldable pub IsAtLeast : ℕ → ℤ → Type 0
IsAtLeast low n = (k : ℕ) × (n ≡ pos k) × (low ≤ k)

pub IsAtLeast-of_lt : (low : ℕ) (n : ℤ) → int_lt n (pos low) ≡ false → IsAtLeast low n
unfolding int_lt IsAtLeast
IsAtLeast-of_lt low (pos k) h = (k, refl, ground arith)
IsAtLeast-of_lt low (negsuc k) h = absurd (cc)

module _ ⦃p : Platform⦄ (name : Text) (default low : ℕ) (le : low ≤ default) (s : Settings) where
  abbrev bounds : Bounds ℤ
  bounds = record {
    default = some (pos default);
    minimum = some (pos low);
    maximum = none;
    minimum_exclusive = false;
  }

  number-IsAtLeast : (v : ℤ) → number_env int_cast name bounds s ≡ done (some v) → IsAtLeast low v
  unfolding InRange IsAtLeast
  number-IsAtLeast v h = elim ((number_env_iff int_cast name bounds s v).0 h) [
    | inl (_, e) ↦ (default, sym (some-injective e), le)
    | inr (_, _, (_, range, _)) ↦ IsAtLeast-of_lt low v range
  ]

  int_setting-IsAtLeast :
      (n : ℤ) → int_setting name (pos default) (pos low) s ≡ done n → IsAtLeast low n
  unfolding int_setting IsAtLeast
  int_setting-IsAtLeast n h =
      after_done (number_env int_cast name bounds s) h
        (λ value e h'. read value e (done-injective h'))
    where
      read :
          (value : Option ℤ)
          → number_env int_cast name bounds s ≡ done value
          → or_else value (pos default) ≡ n
          → IsAtLeast low n
      read none e g = (default, sym g, le)
      read (some v) e g = subst (IsAtLeast low) g (number-IsAtLeast v e)

pub max_tokens-IsAtLeast :
    ⦃p : Platform⦄ (s : Settings) (n : ℤ) → max_tokens s ≡ done n → IsAtLeast 1 n
unfolding max_tokens
max_tokens-IsAtLeast s n h = int_setting-IsAtLeast _ 1024 1 (omega arith) s n h

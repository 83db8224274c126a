-- ===== src/Assistant/Llm/Ollama/Sampling.antt =====
-- The sampling settings that `_ollama` of llm.py sends.
use alertmind.Prelude.{
  or_else, ℕ, ℤ, Bool, true, false, ◌≡◌, refl, ap, ◌∙◌, subst, inl, inr, Option, none, some,
}
use alertmind.Text.{Text, text}
use alertmind.Platform.{Platform}
use alertmind.Assistant.Llm.Error.{done, done-injective, after_done}
use alertmind.Assistant.Llm.Settings.{
  Settings, is_finite_float, float_lt, float_cast, int_cast, number_env, max_tokens, env_flag,
}
use alertmind.Assistant.Llm.Settings.Range.{InRange, number_env_iff, some-injective}
use alertmind.Assistant.Llm.Settings.Least.{IsAtLeast, IsAtLeast-of_lt, max_tokens-IsAtLeast}
use alertmind.Assistant.Llm.Ollama.{
  OllamaOptions, float_one, float_two, temperature_bounds, top_p_bounds, seed_bounds,
  ollama_options,
}

-- A finite float between 0 and 2, and one above 0 and up to 1.
pub IsTemperature : ℕ → Type 0
IsTemperature x =
    (is_finite_float x ≡ true) × (float_lt x 0 ≡ false) × (float_lt float_two x ≡ false)

pub IsTopP : ℕ → Type 0
IsTopP x = (is_finite_float x ≡ true) × (float_lt 0 x ≡ true) × (float_lt float_one x ≡ false)

-- Each option, and the values that may be sent for it.
pub IsSampling : OllamaOptions → Type 0
IsSampling o =
    IsAtLeast 1 o.budget
    × IsTemperature o.temperature
    × ((x : ℕ) → o.top_p ≡ some x → IsTopP x)
    × ((n : ℤ) → o.seed ≡ some n → IsAtLeast 0 n)

module _ ⦃p : Platform⦄ where
  IsTemperature-of_range :
      (name : Text) (x : ℕ)
      → InRange (float_cast ⦃p = p⦄) name temperature_bounds x
      → IsTemperature x
  unfolding InRange IsTemperature
  IsTemperature-of_range name x h = h

  IsTopP-of_range :
      (name : Text) (x : ℕ) → InRange (float_cast ⦃p = p⦄) name top_p_bounds x → IsTopP x
  unfolding InRange IsTopP
  IsTopP-of_range name x (finite, low, high) = (finite, low, high)

  IsAtLeast-seed :
      (name : Text) (n : ℤ) → InRange (int_cast ⦃p = p⦄) name seed_bounds n → IsAtLeast 0 n
  unfolding InRange
  IsAtLeast-seed name n (_, low, _) = IsAtLeast-of_lt 0 n low

module _ ⦃p : Platform⦄ (s : Settings) where
  IsTemperature-read :
      (name : Text) (o : Option ℕ)
      → number_env float_cast name temperature_bounds s ≡ done o
      → IsTemperature (or_else o 0)
  unfolding IsTemperature is_finite_float float_lt
  IsTemperature-read name none h = (refl, refl, refl)
  IsTemperature-read name (some x) h =
      elim ((number_env_iff float_cast name temperature_bounds s x).0 h) [
        | inl (_, e) ↦ subst IsTemperature (some-injective e) (refl, refl, refl)
        | inr (_, _, r) ↦ IsTemperature-of_range name x r
      ]

  IsTopP-read :
      (name : Text) (x : ℕ) → number_env float_cast name top_p_bounds s ≡ done (some x) → IsTopP x
  unfolding IsTopP
  IsTopP-read name x h = elim ((number_env_iff float_cast name top_p_bounds s x).0 h) [
    | inl (_, e) ↦ absurd (cc)
    | inr (_, _, r) ↦ IsTopP-of_range name x r
  ]

  seed_read :
      (name : Text) (n : ℤ) → number_env int_cast name seed_bounds s ≡ done (some n) → IsAtLeast 0 n
  seed_read name n h = elim ((number_env_iff int_cast name seed_bounds s n).0 h) [
    | inl (_, e) ↦ absurd (cc)
    | inr (_, _, r) ↦ IsAtLeast-seed name n r
  ]

  -- The options that are read from the environment are in range: at least one token, a finite
  -- temperature between 0 and 2, a finite nucleus value above 0 and up to 1 if there is one, and a
  -- seed that is not negative if there is one.
  pub ollama_options-IsSampling : (o : OllamaOptions) → ollama_options s ≡ done o → IsSampling o
  unfolding ollama_options IsSampling
  ollama_options-IsSampling o h = after_done (max_tokens s) h (λ budget e1 h1.
      after_done _ h1 (λ temperature e2 h2. after_done _ h2 (λ top_p e3 h3.
        after_done _ h3 (λ seed e4 h4.
          after_done (env_flag (text "ALERTMIND_OLLAMA_STRUCTURED_OUTPUTS") false s) h4
            (λ structured e5 h5.
              subst IsSampling (done-injective h5)
                (sampling budget temperature top_p seed structured e1 e2 e3 e4))))))
    where
      sampling :
          (budget : ℤ) (temperature top_p : Option ℕ) (seed : Option ℤ) (structured : Bool)
          → max_tokens s ≡ done budget
          → number_env float_cast (text "ALERTMIND_OLLAMA_TEMPERATURE") temperature_bounds s
            ≡ done temperature
          → number_env float_cast (text "ALERTMIND_OLLAMA_TOP_P") top_p_bounds s ≡ done top_p
          → number_env int_cast (text "ALERTMIND_OLLAMA_SEED") seed_bounds s ≡ done seed
          → IsSampling (record {
            budget = budget;
            temperature = or_else temperature 0;
            top_p = top_p;
            seed = seed;
            structured_outputs = structured;
          })
      sampling budget temperature top_p seed structured a b c d = (
        max_tokens-IsAtLeast s budget a,
        IsTemperature-read _ temperature b,
        λ x e. IsTopP-read _ x (c ∙ ap done e),
        λ n e. seed_read _ n (d ∙ ap done e),
      )

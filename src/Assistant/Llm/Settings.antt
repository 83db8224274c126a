-- ===== src/Assistant/Llm/Settings.antt =====
-- llm.py: the settings that the client reads from the environment.
pub mod Range
pub mod Least
use alertmind.Prelude.{
  or_else, ℕ, zero, suc, ◌+◌, ◌-◌, ◌*◌, ◌%◌, ◌^◌, ℤ, pos, negsuc, Bool, true, false, not, ◌&&◌, [],
  ◌∷◌, Option, none, some, ltb, leb, nat_eq, is_empty, length, keep, if◌then◌else◌,
}
use alertmind.Text.{Text, text, is_one_of, strip, int_text}
use alertmind.Platform.{Platform, is_decimal, lower}
use alertmind.Assistant.Paste.Endpoint.{Surroundings}
use alertmind.Assistant.Llm.Error.{
  not_a_number, not_finite, out_of_range, not_a_flag, Outcome, done, failed, ◌>>=◌,
}

-- The environment, and the globals of the module that a call reads.
pub record Settings : Type 0 where
  pub io : Surroundings
  -- `_OPENAI_REASONING_EFFORT`
  pub imported_effort : Text
  -- `_TIMEOUT_OVERRIDE`
  pub timeout_override : Option ℤ
  -- `requests is not None`
  pub has_requests : Bool

-- `os.environ.get(name, d)`
abbrev pub env_or : Settings → Text → Text → Text
env_or s name d = or_else (s.io.env name) d

-- The type that `_number_env` is given, with its tests and its printed form.
pub record Cast (A : Type 0) : Type 0 where
  pub kind : Text
  pub read : Text → Option A
  pub is_finite : A → Bool
  pub lt : A → A → Bool
  pub show : A → Text

-- `a < b` of integers
unfoldable pub int_lt : ℤ → ℤ → Bool
int_lt (pos a) (pos b) = ltb a b
int_lt (pos a) (negsuc b) = false
int_lt (negsuc a) (pos b) = true
int_lt (negsuc a) (negsuc b) = ltb b a

abbrev sign_bit : ℕ
sign_bit = 2 ^ 63

-- `math.isfinite(x)`, by the exponent
unfoldable pub is_finite_float : ℕ → Bool
is_finite_float x = ltb (x % sign_bit) 0x7FF0000000000000

-- `a < b` of floats that are no NaN: by sign and magnitude, and the two zeros are equal
unfoldable pub float_lt : ℕ → ℕ → Bool
float_lt a b =
    if leb sign_bit a
    then (if leb sign_bit b
        then ltb (b % sign_bit) (a % sign_bit)
        else ltb 0 (a % sign_bit + b % sign_bit))
    else not (leb sign_bit b) && ltb a b

abbrev map_int : (ℕ → ℤ) → Option ℕ → Option ℤ
map_int f none = none
map_int f (some n) = some (f n)

abbrev negated : ℕ → ℤ
negated zero = pos zero
negated (suc n) = negsuc n

module _ ⦃p : Platform⦄ where
  abbrev digit_value : ℕ → ℕ
  digit_value c = if leb c 127 then c - b'0' else p.digit_of c

  -- The digits of an `int` literal: a single underscore may stand between two of them.
  unfoldable pub digits_value : Bool → ℕ → Text → Option ℕ
  digits_value after value [] = if after then some value else none
  digits_value after value (c ∷ s) =
      let digit = digits_value true (10 * value + digit_value c) s in
      let gap = digits_value false value s in
      if is_decimal c then digit else (if after && nat_eq c b'_' then gap else none)

  -- The sign and the digits.
  abbrev signed_value : Text → Option ℤ
  unfolding digits_value
  signed_value [] = none
  signed_value (c ∷ s) =
      if nat_eq c b'-'
      then map_int negated (digits_value false 0 s)
      else (if nat_eq c b'+'
          then map_int pos (digits_value false 0 s)
          else map_int pos (digits_value false 0 (c ∷ s)))

  -- `int(s)` of a stripped text: more than 4300 digits, the default of
  -- `sys.get_int_max_str_digits()`, raise `ValueError`.
  unfoldable pub read_int : Text → Option ℤ
  unfolding digits_value
  read_int s = if ltb 4300 (length (keep is_decimal s)) then none else signed_value s

-- The bounds that the callers of `_number_env` give.
pub record Bounds (A : Type 0) : Type 0 where
  pub default : Option A
  pub minimum : Option A
  pub maximum : Option A
  pub minimum_exclusive : Bool

module _ {A : Type 0} (cast : Cast A) (name : Text) (bounds : Bounds A) where
  abbrev comparator : Text
  comparator = if bounds.minimum_exclusive then text ">" else text ">="

  -- `value <= minimum if minimum_exclusive else value < minimum`
  abbrev pub is_below : A → A → Bool
  is_below value low =
      if bounds.minimum_exclusive then not (cast.lt low value) else cast.lt value low

  unfoldable pub check_maximum : Text → A → Option A → Outcome (Option A)
  check_maximum raw value none = done (some value)
  check_maximum raw value (some high) =
      if cast.lt high value
      then failed (out_of_range name (text "<=") (cast.show high) raw)
      else done (some value)

  unfoldable pub check_minimum : Text → A → Option A → Outcome (Option A)
  unfolding check_maximum
  check_minimum raw value none = check_maximum raw value bounds.maximum
  check_minimum raw value (some low) =
      if is_below value low
      then failed (out_of_range name comparator (cast.show low) raw)
      else check_maximum raw value bounds.maximum

  unfoldable pub check_number : Text → Option A → Outcome (Option A)
  unfolding check_minimum
  check_number raw none = failed (not_a_number name cast.kind raw)
  check_number raw (some value) =
      if not (cast.is_finite value)
      then failed (not_finite name raw)
      else check_minimum raw value bounds.minimum

  -- `_number_env`
  unfoldable pub number_env : Settings → Outcome (Option A)
  unfolding check_number
  number_env s =
      let raw = strip (env_or s name []) in
      if is_empty raw then done bounds.default else check_number raw (cast.read raw)

module _ ⦃p : Platform⦄ where
  abbrev pub int_cast : Cast ℤ
  int_cast = record {
    kind = text "an integer";
    read = read_int;
    is_finite = λ _. true;
    lt = int_lt;
    show = int_text;
  }

  abbrev pub float_cast : Cast ℕ
  float_cast = record {
    kind = text "a number";
    read = p.read_float;
    is_finite = is_finite_float;
    lt = float_lt;
    show = p.float_text;
  }

  -- The three integer settings, which have a default and a least value.
  unfoldable pub int_setting : Text → ℤ → ℤ → Settings → Outcome ℤ
  unfolding number_env
  int_setting name default low s = do
    value ←
        number_env int_cast name
          (record {
            default = some default;
            minimum = some low;
            maximum = none;
            minimum_exclusive = false;
          })
          s
    done (or_else value default)

  unfoldable pub timeout_seconds : Settings → Outcome ℤ
  unfolding int_setting
  timeout_seconds s = elim s.timeout_override [
    | some seconds ↦ done seconds
    | none ↦ int_setting (text "ALERTMIND_LLM_TIMEOUT") (pos 300) (pos 1) s
  ]

  unfoldable pub max_tokens : Settings → Outcome ℤ
  unfolding int_setting
  max_tokens s = int_setting (text "ALERTMIND_MAX_TOKENS") (pos 1024) (pos 1) s

  unfoldable pub retries : Settings → Outcome ℤ
  unfolding int_setting
  retries s = int_setting (text "ALERTMIND_LLM_RETRIES") (pos 2) (pos 0) s

  abbrev flag_of : Text → Text → Outcome Bool
  flag_of name raw =
      let normalized = lower (strip raw) in
      if is_one_of (text "1" ∷ text "true" ∷ text "yes" ∷ text "on" ∷ []) normalized
      then done true
      else (if is_one_of (text "0" ∷ text "false" ∷ text "no" ∷ text "off" ∷ []) normalized
          then done false
          else failed (not_a_flag name raw))

  -- `_env_flag`
  unfoldable pub env_flag : Text → Bool → Settings → Outcome Bool
  env_flag name default s = elim (s.io.env name) [
    | none ↦ done default
    | some raw ↦ if is_empty (strip raw) then done default else flag_of name raw
  ]

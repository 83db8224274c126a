-- ===== src/Platform.antt =====
-- What the program takes from Python's runtime and its C libraries: the Unicode database beyond
-- ASCII, the printed form of a float, SHA-256 and the JSON decoder. Each is a field, and the code
-- works for every value of the record; `plain` is one.
use alertmind.Prelude.{
  ℕ, ◌+◌, ◌-◌, Bool, false, ◌||◌, List, [], ◌∷◌, ◌++◌, Option, none, leb, nat_eq, if◌then◌else◌,
}
use alertmind.Text.{Text, text, is_upper_ascii, is_lower_ascii, is_digit_ascii}
use alertmind.Json.Parsed.{Parsed, bad}

abbrev pub Bytes : Type 0
Bytes = List ℕ

pub record Platform : Type 0 where
  -- beyond ASCII: letters and digits, decimal digits and their
  -- values, lower case and upper case
  pub alnum : ℕ → Bool
  pub decimal : ℕ → Bool
  pub digit_of : ℕ → ℕ
  pub lower_of : ℕ → Text
  pub upper_of : ℕ → Text
  -- `repr` of the float with these 64 bits
  pub float_text : ℕ → Text
  -- `float(s)`, by its 64 bits, none where it raises
  pub read_float : Text → Option ℕ
  -- `hashlib.sha256(raw).hexdigest()`
  pub sha256 : Bytes → Text
  -- `hmac.new(key, s.encode(), sha256).hexdigest()`
  pub hmac_sha256 : Bytes → Text → Text
  -- what the JSON decoder meets in a text, given as bytes or as `str`
  pub parse : Bytes → Parsed
  pub decode : Text → Parsed

module _ ⦃p : Platform⦄ where
  -- `\w`
  unfoldable pub is_word : ℕ → Bool
  is_word c =
      if leb c 127
      then is_upper_ascii c || is_lower_ascii c || is_digit_ascii c || nat_eq c b'_'
      else p.alnum c

  -- `\d`
  unfoldable pub is_decimal : ℕ → Bool
  is_decimal c = if leb c 127 then is_digit_ascii c else p.decimal c

  -- `s.lower()`, letter by letter: the other form that a capital sigma takes at the end of a word is
  -- left out, and the code compares the results with ASCII texts only.
  unfoldable pub lower : Text → Text
  lower [] = []
  lower (c ∷ s) =
      (if leb c 127 then (if is_upper_ascii c then c + 32 else c) ∷ [] else p.lower_of c) ++ lower s

  -- `s.upper()`
  unfoldable pub upper : Text → Text
  upper [] = []
  upper (c ∷ s) =
      (if leb c 127 then (if is_lower_ascii c then c - 32 else c) ∷ [] else p.upper_of c) ++ upper s

-- A runtime for the tests: ASCII only, and the identity for the hash.
abbrev pub plain : Platform
plain = record {
  alnum = λ _. false;
  decimal = λ _. false;
  digit_of = λ _. 0;
  lower_of = λ c. c ∷ [];
  upper_of = λ c. c ∷ [];
  float_text = λ _. text "0.5";
  read_float = λ _. none;
  sha256 = λ raw. raw;
  hmac_sha256 = λ key s. key ++ s;
  parse = λ _. bad;
  decode = λ _. bad;
}

-- ===== src/Text.antt =====
-- Python's `str`: a sequence of code points, and the methods of `str` that the program calls.
pub mod Laws
pub mod Sets
pub mod Trim
pub mod Split
pub mod Digits
use Prim.Native.Char.{code}
use alertmind.Prelude.{
  ℕ, zero, suc, ◌+◌, ◌-◌, ◌/◌, ◌%◌, ℤ, pos, negsuc, String, Bool, true, false, ◌&&◌, ◌||◌, List, [],
  ◌∷◌, ◌++◌, Option, none, some, leb, ltb, nat_eq, any, is_some, is_empty, if◌then◌else◌,
}

abbrev pub Text : Type 0
Text = List ℕ

-- A literal of the source.
unfoldable pub text : String → Text
text String.[] = []
text (String.◌∷◌ c s) = code c ∷ text s

-- `a == b`
unfoldable pub text_eq : Text → Text → Bool
text_eq [] [] = true
text_eq (c ∷ s) (d ∷ t) = nat_eq c d && text_eq s t
text_eq _ _ = false

-- `a in xs`, for a list or a set of texts
abbrev pub is_one_of : List Text → Text → Bool
is_one_of xs a = any (text_eq a) xs

-- What follows a prefix.
unfoldable pub after? : Text → Text → Option Text
after? [] s = some s
after? (c ∷ p) [] = none
after? (c ∷ p) (d ∷ s) = if nat_eq c d then after? p s else none

-- `s.startswith(p)`
unfoldable pub starts_with : Text → Text → Bool
unfolding after?
starts_with p s = is_some (after? p s)

-- `p in s`
unfoldable pub is_in : Text → Text → Bool
unfolding starts_with
is_in p [] = starts_with p []
is_in p (c ∷ s) = starts_with p (c ∷ s) || is_in p s

-- `s.endswith(p)`
unfoldable pub ends_with : Text → Text → Bool
unfolding text_eq
ends_with p [] = text_eq p []
ends_with p (c ∷ s) = text_eq p (c ∷ s) || ends_with p s

abbrev pub between : ℕ → ℕ → ℕ → Bool
between lo hi c = leb lo c && leb c hi

-- `c.isspace()`, which `\s` and `strip` go by.
unfoldable pub is_space : ℕ → Bool
is_space c =
    between 9 13 c
    || between 28 32 c
    || nat_eq c 0x85
    || nat_eq c 0xA0
    || nat_eq c 0x1680
    || between 0x2000 0x200A c
    || between 0x2028 0x2029 c
    || nat_eq c 0x202F
    || nat_eq c 0x205F
    || nat_eq c 0x3000

abbrev pub is_upper_ascii : ℕ → Bool
is_upper_ascii = between b'A' b'Z'

abbrev pub is_lower_ascii : ℕ → Bool
is_lower_ascii = between b'a' b'z'

abbrev pub is_digit_ascii : ℕ → Bool
is_digit_ascii = between b'0' b'9'

-- `s.lstrip()`
unfoldable pub lstrip : Text → Text
unfolding is_space
lstrip [] = []
lstrip (c ∷ s) = let rest = lstrip s in if is_space c then rest else c ∷ s

-- `s.rstrip()`
unfoldable pub rstrip : Text → Text
unfolding is_space
rstrip [] = []
rstrip (c ∷ s) = let rest = rstrip s in if is_empty rest && is_space c then [] else c ∷ rest

-- `s.strip()`
unfoldable pub strip : Text → Text
unfolding lstrip rstrip
strip s = rstrip (lstrip s)

-- `sep.join(parts)`
unfoldable pub join : Text → List Text → Text
join sep [] = []
join sep (a ∷ []) = a
join sep (a ∷ b ∷ parts) = a ++ (sep ++ join sep (b ∷ parts))

-- One character more in front of the parts of a split.
abbrev pub split_step : ℕ → ℕ → List Text → List Text
split_step sep c [] = []
split_step sep c (a ∷ parts) = if nat_eq c sep then [] ∷ a ∷ parts else (c ∷ a) ∷ parts

-- `s.split(sep)` at a separator of one character
unfoldable pub split_on : ℕ → Text → List Text
split_on sep [] = [] ∷ []
split_on sep (c ∷ s) = split_step sep c (split_on sep s)

-- The decimal digits of `n`, in front of `rest`; more rounds than digits change nothing.
digits_from : ℕ → ℕ → Text → Text
digits_from zero n rest = rest
digits_from (suc fuel) n rest =
    let more = digits_from fuel (n / 10) ((b'0' + n % 10) ∷ rest) in
    if ltb n 10 then (b'0' + n) ∷ rest else more

-- `str(n)`
unfoldable pub nat_text : ℕ → Text
unfolding digits_from
nat_text n = digits_from (suc n) n []

-- `str(n)` of a signed number
unfoldable pub int_text : ℤ → Text
unfolding nat_text
int_text (pos n) = nat_text n
int_text (negsuc n) = b'-' ∷ nat_text (suc n)

-- ===== src/Text/Trim.antt =====
-- `s.strip(c)`, `s.rstrip(c)` and `s.partition(sep)` for a single character.
use alertmind.Prelude.{ℕ, [], ◌∷◌, Option, none, some, ◌&&◌, nat_eq, is_empty, if◌then◌else◌}
use alertmind.Text.{Text}

unfoldable pub lstrip_char : ℕ → Text → Text
lstrip_char c [] = []
lstrip_char c (d ∷ s) = let rest = lstrip_char c s in if nat_eq d c then rest else d ∷ s

unfoldable pub rstrip_char : ℕ → Text → Text
rstrip_char c [] = []
rstrip_char c (d ∷ s) =
    let rest = rstrip_char c s in if is_empty rest && nat_eq d c then [] else d ∷ rest

unfoldable pub strip_char : ℕ → Text → Text
unfolding lstrip_char rstrip_char
strip_char c s = rstrip_char c (lstrip_char c s)

abbrev with_head : ℕ → Option (Text × Text) → Option (Text × Text)
with_head d none = none
with_head d (some (before, after)) = some (d ∷ before, after)

-- What stands before and behind the first `c`, where there is one: `s.split(c, 1)`, or
-- `s.partition(c)`.
unfoldable pub partition : ℕ → Text → Option (Text × Text)
partition c [] = none
partition c (d ∷ s) =
    let later = partition c s in if nat_eq d c then some ([], s) else with_head d later

-- ===== src/Regex.antt =====
-- The part of Python's `re` that the program uses, over texts of code points: a backtracking
-- matcher by the list of all ends of a match, in the order in which `re` tries them.
pub mod Meaning
pub mod Sound
pub mod Replace
use alertmind.Prelude.{
  ℕ, zero, suc, ◌-◌, ◌+◌, Bool, true, false, not, ◌&&◌, ◌||◌, List, [], ◌∷◌, ◌++◌, Option, none,
  some, nat_eq, leb, ltb, length, take, is_empty, is_some, any, if◌then◌else◌,
}
use alertmind.Text.{Text, is_one_of, is_space, between, is_upper_ascii, is_lower_ascii}
use alertmind.Platform.{Platform, is_word}

-- Patterns. `star` is greedy, `lazy` its reluctant twin; `group` is the one capturing group that
-- a replacement refers to; `edge` is `\b`, `start` is `^` and `finish` is `$`.
pub data Re : Type 0 where
  empty edge start finish : Re
  one : (ℕ → Bool) → Re
  seq alt : Re → Re → Re
  star lazy group : Re → Re

-- Where a match stands: the character before, the text that is left, and what the group holds.
pub record Cursor : Type 0 where
  pub before : Option ℕ
  pub rest : Text
  pub captured : Text

-- What was read between two cursors of one text.
abbrev pub consumed : Cursor → Cursor → Text
consumed c d = take (length c.rest - length d.rest) c.rest

-- A step over one character of a class.
abbrev pub step_one : (ℕ → Bool) → Cursor → Text → List Cursor
step_one test c [] = []
step_one test c (x ∷ s) =
    if test x then record { before = some x; rest = s; captured = c.captured } ∷ [] else []

-- All ends of `f` from each of the cursors, in order.
unfoldable pub each_from : (Cursor → List Cursor) → List Cursor → List Cursor
each_from f [] = []
each_from f (c ∷ cs) = f c ++ each_from f cs

-- A round of a loop counts only if it read something.
abbrev pub longer : Cursor → List Cursor → List Cursor
longer c [] = []
longer c (d ∷ ds) =
    let more = longer c ds in if ltb (length d.rest) (length c.rest) then d ∷ more else more

-- The ends of a loop of at most so many rounds: greedy or reluctant.
unfoldable pub loop : (Cursor → List Cursor) → Bool → ℕ → Cursor → List Cursor
loop f greedy zero c = c ∷ []
loop f greedy (suc n) c =
    let more = each_from (loop f greedy n) (longer c (f c)) in
    if greedy then more ++ c ∷ [] else c ∷ more

module _ ⦃p : Platform⦄ where
  abbrev pub word_at : Option ℕ → Bool
  word_at none = false
  word_at (some c) = is_word c

  abbrev pub first : Text → Option ℕ
  first [] = none
  first (c ∷ _) = some c

  abbrev pub at_edge : Cursor → Bool
  at_edge c = elim (word_at c.before) [
    | true ↦ not (word_at (first c.rest))
    | false ↦ word_at (first c.rest)
  ]

  -- `$` stands at the end, and before a line break at the end.
  abbrev pub at_finish : Text → Bool
  at_finish [] = true
  at_finish (c ∷ []) = nat_eq c 10
  at_finish (_ ∷ _ ∷ _) = false

  abbrev pub only_if : Bool → Cursor → List Cursor
  only_if b c = if b then c ∷ [] else []

  abbrev pub capture : Cursor → List Cursor → List Cursor
  capture c [] = []
  capture c (d ∷ ds) = record d { captured = consumed c d } ∷ capture c ds

  -- Where a match that begins at the cursor may end.
  unfoldable pub ends : Re → Cursor → List Cursor
  unfolding each_from loop
  ends empty c = c ∷ []
  ends edge c = only_if (at_edge c) c
  ends start c = only_if (not (is_some c.before)) c
  ends finish c = only_if (at_finish c.rest) c
  ends (one test) c = step_one test c c.rest
  ends (seq r s) c = each_from (ends s) (ends r c)
  ends (alt r s) c = ends r c ++ ends s c
  ends (star r) c = loop (ends r) true (length c.rest) c
  ends (lazy r) c = loop (ends r) false (length c.rest) c
  ends (group r) c = capture c (ends r c)

  abbrev pub head? : List Cursor → Option Cursor
  head? [] = none
  head? (c ∷ _) = some c

  abbrev pub cursor : Option ℕ → Text → Cursor
  cursor before s = record { before = before; rest = s; captured = [] }

  -- The match of `re` that begins here.
  unfoldable pub match_at : Re → Option ℕ → Text → Option Cursor
  unfolding ends
  match_at r before s = head? (ends r (cursor before s))

  -- `pattern.search(s)` as a test, from a place in the text.
  unfoldable pub search_from : Re → Option ℕ → Text → Bool
  unfolding match_at
  search_from r before [] = is_some (match_at r before [])
  search_from r before (c ∷ s) = is_some (match_at r before (c ∷ s)) || search_from r (some c) s

  unfoldable pub search : Re → Text → Bool
  unfolding search_from
  search r s = search_from r none s

  -- `m.start()` of `m = pattern.search(s)`, for a text at the given place
  unfoldable pub start_from : Re → ℕ → Option ℕ → Text → Option ℕ
  unfolding match_at
  start_from r at before [] = if is_some (match_at r before []) then some at else none
  start_from r at before (c ∷ s) =
      let later = start_from r (suc at) (some c) s in
      if is_some (match_at r before (c ∷ s)) then some at else later

  unfoldable pub find_start : Re → Text → Option ℕ
  unfolding start_from
  find_start r s = start_from r 0 none s

  -- `pattern.fullmatch(s) is not None`: some way to match ends at the end.
  unfoldable pub fullmatch : Re → Text → Bool
  unfolding ends
  fullmatch r s = any (λ c. is_empty c.rest) (ends r (cursor none s))

-- One match of a scan: what it read, and what its group holds.
pub record Found : Type 0 where
  pub whole : Text
  pub inner : Text

abbrev pub found_of : Text → Cursor → Found
found_of s d = record { whole = take (length s - length d.rest) s; inner = d.captured }

-- A scan goes on behind a match. These patterns match no empty text; an empty match would be
-- passed over.
module _ ⦃p : Platform⦄ where
  -- `pattern.finditer(s)`; the number counts the characters of the last match that are left.
  unfoldable pub find_from : Re → ℕ → Option ℕ → Text → List Found
  unfolding match_at
  find_from r skip before [] = []
  find_from r (suc skip) before (c ∷ s) = find_from r skip (some c) s
  find_from r zero before (c ∷ s) = elim (match_at r before (c ∷ s)) [
    | none ↦ find_from r zero (some c) s
    | some d ↦ elim (length (c ∷ s) - length d.rest) [
      | zero ↦ find_from r zero (some c) s
      | suc n ↦ found_of (c ∷ s) d ∷ find_from r n (some c) s
    ]
  ]

  unfoldable pub find_all : Re → Text → List Found
  unfolding find_from
  find_all r s = find_from r zero none s

  -- `pattern.sub(replacement, s)`
  unfoldable pub sub_from : Re → (Found → Text) → ℕ → Option ℕ → Text → Text
  unfolding match_at
  sub_from r by skip before [] = []
  sub_from r by (suc skip) before (c ∷ s) = sub_from r by skip (some c) s
  sub_from r by zero before (c ∷ s) = elim (match_at r before (c ∷ s)) [
    | none ↦ c ∷ sub_from r by zero (some c) s
    | some d ↦ elim (length (c ∷ s) - length d.rest) [
      | zero ↦ c ∷ sub_from r by zero (some c) s
      | suc n ↦ by (found_of (c ∷ s) d) ++ sub_from r by n (some c) s
    ]
  ]

  unfoldable pub sub : Re → (Found → Text) → Text → Text
  unfolding sub_from
  sub r by s = sub_from r by zero none s

-- Repetition by counts, as `re` unfolds it.
unfoldable pub at_most : ℕ → Re → Re
at_most zero r = empty
at_most (suc n) r = alt (seq r (at_most n r)) empty

unfoldable pub at_most_lazy : ℕ → Re → Re
at_most_lazy zero r = empty
at_most_lazy (suc n) r = alt empty (seq r (at_most_lazy n r))

unfoldable pub exactly : ℕ → Re → Re
exactly zero r = empty
exactly (suc n) r = seq r (exactly n r)

abbrev pub opt : Re → Re
opt r = alt r empty

abbrev pub plus : Re → Re
plus r = seq r (star r)

-- `r{n,}`
abbrev pub at_least : ℕ → Re → Re
at_least n r = seq (exactly n r) (star r)

abbrev pub all_of : List Re → Re
all_of [] = empty
all_of (r ∷ []) = r
all_of (r ∷ s ∷ rs) = seq r (all_of (s ∷ rs))

abbrev pub one_of : List Re → Re
one_of [] = one (λ _. false)
one_of (r ∷ []) = r
one_of (r ∷ s ∷ rs) = alt r (one_of (s ∷ rs))

-- A literal, and a literal under `(?i)` that is written in lower case.
unfoldable pub lit : Text → Re
lit [] = empty
lit (c ∷ []) = one (nat_eq c)
lit (c ∷ d ∷ s) = seq (one (nat_eq c)) (lit (d ∷ s))

-- The characters beyond ASCII that `(?i)` takes for an ASCII letter: both Turkish i, the long s
-- and the Kelvin sign.
unfoldable pub folds : ℕ → ℕ → Bool
folds c x =
    nat_eq c b'i' && (nat_eq x 0x130 || nat_eq x 0x131)
    || nat_eq c b's' && nat_eq x 0x17F
    || nat_eq c b'k' && nat_eq x 0x212A

-- `x` is the character `c`, or the other case of the lower-case letter `c`.
unfoldable pub same_letter : ℕ → ℕ → Bool
unfolding folds
same_letter c x = nat_eq x c || is_lower_ascii c && (nat_eq (x + 32) c || folds c x)

unfoldable pub ilit : Text → Re
unfolding same_letter
ilit [] = empty
ilit (c ∷ []) = one (same_letter c)
ilit (c ∷ d ∷ s) = seq (one (same_letter c)) (ilit (d ∷ s))

-- `[A-Za-z]` under `(?i)`
unfoldable pub is_letter_ci : ℕ → Bool
is_letter_ci x =
    is_upper_ascii x
    || is_lower_ascii x
    || nat_eq x 0x130
    || nat_eq x 0x131
    || nat_eq x 0x17F
    || nat_eq x 0x212A

-- `\s`, and `.` without and with `re.S`
abbrev pub space : Re
space = one is_space

abbrev pub dot : Re
dot = one (λ c. not (nat_eq c 10))

abbrev pub any_char : Re
any_char = one (λ _. true)

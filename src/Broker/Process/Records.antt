-- ===== src/Broker/Process/Records.antt =====
-- operator_process.py: what the small files of a process say.
pub mod Fields
use alertmind.Prelude.{
  ℕ, zero, suc, ◌+◌, ◌-◌, ◌*◌, ◌^◌, ℤ, pos, Bool, true, false, not, ◌&&◌, ◌||◌, String, List, [],
  ◌∷◌, ◌++◌, Option, none, some, all, any, length, replicate, get_elem?, leb, ltb, nat_eq, is_empty,
  if◌then◌else◌,
}
use alertmind.Text.{
  Text, text, text_eq, is_one_of, after?, starts_with, split_on, between, nat_text, is_upper_ascii,
  is_lower_ascii, is_digit_ascii,
}
use alertmind.Text.Trim.{partition}
use alertmind.Platform.{Bytes}
use alertmind.Result.{Result, ok, err, ◌>>=◌, ◌>>◌, require}
use alertmind.Broker.Service.Summary.{is_variable_name}

-- `LIMITS`
abbrev pub stat_limit : ℕ
stat_limit = 8192

abbrev pub status_limit : ℕ
status_limit = 65536

abbrev pub cmdline_limit : ℕ
cmdline_limit = 128 * 1024

abbrev pub environ_limit : ℕ
environ_limit = 1024 * 1024

-- `_pid`, of a number that is an `int` already
unfoldable pub check_pid : ℕ → Result (Unit {0})
check_pid pid = require (ltb 1 pid && ltb pid (2 ^ 32)) "PROCESS_PID"

-- What stands behind the last `) `.
unfoldable pub after_last : Text → Text → Option Text
after_last mark [] = none
after_last mark (c ∷ s) = elim (after_last mark s) [
  | some rest ↦ some rest
  | none ↦ after? mark (c ∷ s)
]

abbrev is_blank : ℕ → Bool
is_blank c = between 9 13 c || nat_eq c 32

-- `raw.split()` of bytes, the first word still open
abbrev word_step : ℕ → Text × List Text → Text × List Text
word_step c ([], words) = if is_blank c then ([], words) else (c ∷ [], words)
word_step c (d ∷ word, words) =
    if is_blank c then ([], (d ∷ word) ∷ words) else (c ∷ d ∷ word, words)

unfoldable pub open_words : Bytes → Text × List Text
open_words [] = ([], [])
open_words (c ∷ raw) = word_step c (open_words raw)

abbrev close_words : Text × List Text → List Text
close_words ([], words) = words
close_words (c ∷ word, words) = (c ∷ word) ∷ words

unfoldable pub words_of : Bytes → List Text
words_of raw = close_words (open_words raw)

-- `int(digits)` of decimal digits
unfoldable pub value_of : ℕ → Text → ℕ
value_of n [] = n
value_of n (c ∷ s) = value_of (10 * n + (c - b'0')) s

-- `re.fullmatch(rb'[0-9]{1,20}', field)`
abbrev is_number : Text → Bool
is_number s = ltb 0 (length s) && leb (length s) 20 && all is_digit_ascii s

abbrev is_running : List Text → Bool
is_running [] = false
is_running (state ∷ _) = is_one_of (text "R" ∷ text "S" ∷ text "D" ∷ text "I" ∷ []) state

abbrev started : Option Text → Result ℕ
started none = err "PROCESS_STAT"
started (some field) = do
  require (is_number field) "PROCESS_STAT"
  require (ltb 0 (value_of 0 field) && ltb (value_of 0 field) (2 ^ 64)) "PROCESS_STAT"
  ok (value_of 0 field)

abbrev fields_behind : Option Text → List Text
fields_behind none = []
fields_behind (some rest) = words_of rest

-- `_start_time`
unfoldable pub start_time : Bytes → ℕ → Result ℕ
start_time raw pid = do
  require
      (ltb 0 (length raw)
        && leb (length raw) stat_limit
        && starts_with (nat_text pid ++ text " (") raw)
      "PROCESS_STAT"
  let fields = fields_behind (after_last (text ") ") raw)
  require (leb 20 (length fields) && is_running fields) "PROCESS_STAT"
  started (get_elem? fields 19)

abbrev same_words : List Text → List Text → Bool
same_words [] [] = true
same_words (a ∷ as') (b ∷ bs) = text_eq a b && same_words as' bs
same_words _ _ = false

-- The words of the lines that start with a name.
unfoldable pub rows_of : Text → List Bytes → List (List Text)
rows_of name [] = []
rows_of name (line ∷ lines) = elim (after? name line) [
  | none ↦ rows_of name lines
  | some rest ↦ words_of rest ∷ rows_of name lines
]

abbrev is_single : List (List Text) → List Text → Bool
is_single (row ∷ []) expected = same_words row expected
is_single _ expected = false

abbrev check_ids : Text → ℕ → Bytes → Result (Unit {0})
check_ids name expected raw =
    require (is_single (rows_of name (split_on 10 raw)) (replicate 4 (nat_text expected)))
      "PROCESS_IDENTITY"

-- `_credentials`
unfoldable pub check_credentials : Bytes → ℕ × ℕ → Result (Unit {0})
check_credentials raw (uid, gid) = do
  require (leb (length raw) status_limit) "PROCESS_IDENTITY"
  check_ids (text "Uid:") uid raw
  check_ids (text "Gid:") gid raw

-- `raw[:-1]`, if the bytes end with a zero
unfoldable pub before_nul : Bytes → Option Bytes
before_nul [] = none
before_nul (c ∷ []) = if nat_eq c 0 then some [] else none
before_nul (c ∷ d ∷ raw) = elim (before_nul (d ∷ raw)) [ none ↦ none | some s ↦ some (c ∷ s) ]

abbrev pub name_of : Bytes → Option Bytes
name_of entry = elim (partition b'=' entry) [ none ↦ none | some (name, _) ↦ some name ]

-- The names of the entries are variables, and none is there twice.
unfoldable pub check_names : List Bytes → List Bytes → Result (Unit {0})
check_names [] names = ok tt
check_names (entry ∷ entries) names = elim (name_of entry) [
  | none ↦ err "PROCESS_ENVIRONMENT"
  | some name ↦
      require (is_variable_name name && not (is_one_of names name)) "PROCESS_ENVIRONMENT"
      >> check_names entries (name ∷ names)
]

abbrev is_filled : List Bytes → Bool
is_filled [] = false
is_filled (first ∷ _) = not (is_empty first)

abbrev code_of : Bool → String
code_of environment = if environment then "PROCESS_ENVIRONMENT" else "PROCESS_CMDLINE"

abbrev pub split_fields : Bool → Option Bytes → Result (List Bytes)
split_fields environment none = err (code_of environment)
split_fields environment (some body) = do
  let fields = split_on 0 body
  if environment then check_names fields [] else require (is_filled fields) "PROCESS_CMDLINE"
  ok fields

-- `_nul_fields`
unfoldable pub nul_fields : Bool → Bytes → Result (List Bytes)
nul_fields environment raw = do
  require (leb (length raw) (if environment then environ_limit else cmdline_limit))
      (code_of environment)
  if environment && is_empty raw then ok [] else split_fields environment (before_nul raw)

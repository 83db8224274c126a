-- ===== src/Assistant/Schema.antt =====
-- schema.py: the check of a model's answer. An error keeps the value that Python prints into its
-- text; the printed form of a value is not modelled.
pub mod Checks
pub mod Accept
pub mod Provider
pub mod Complete
pub mod Formal
use alertmind.Prelude.{
  ℕ, Bool, true, false, not, ◌&&◌, ◌||◌, List, [], ◌∷◌, ◌++◌, Option, none, some, nat_eq, ltb, leb,
  length, take, all, any, keep, is_empty, is_some, map, if◌then◌else◌,
}
use alertmind.Text.{Text, text, text_eq, is_one_of}
use alertmind.Text.Sets.{sorted_set}
use alertmind.Platform.{Platform, is_decimal}
use alertmind.Json.{
  Json, null, bool, int, float, str, arr, obj, Items, nil, cons, Fields, items, of_items, is_list,
  is_str, truthy,
}
use alertmind.Json.Dict.{lookup, get, has, insert, keys}
use alertmind.Result.{Result, ok, err, ◌>>=◌}
use alertmind.Regex.{Re, start, finish, one, seq, star, opt, all_of, exactly, space, match_at}

pub data SchemaError : Type 0 where
  not_an_object : SchemaError
  additional_property : Text → SchemaError
  missing : Text → SchemaError
  summary_not_list summary_over_5_lines summary_non_string_items : SchemaError
  technique_bad_syntax : Json → SchemaError
  disposition_invalid : Json → SchemaError
  confidence_invalid : Json → SchemaError
  queries_not_string_list : SchemaError
  queries_count : ℕ → SchemaError
  not_string : Text → SchemaError

unfoldable pub dispositions : List Text
unfolding text
dispositions = text "likely_true_positive" ∷ text "likely_benign" ∷ text "needs_investigation" ∷ []

unfoldable pub confidences : List Text
unfolding text
confidences = text "high" ∷ text "medium" ∷ text "low" ∷ []

-- `JSON_SCHEMA["required"]`, and the names in its `properties`
unfoldable pub required : List Text
unfolding text
required =
    text "summary"
    ∷ text "attack_technique_id"
    ∷ text "disposition_suggestion"
    ∷ text "confidence"
    ∷ text "investigation_queries"
    ∷ text "draft_user_message"
    ∷ text "caveats"
    ∷ []

unfoldable pub allowed : List Text
unfolding text
allowed =
    text "summary"
    ∷ text "attack_technique_id"
    ∷ text "attack_technique_name"
    ∷ text "disposition_suggestion"
    ∷ text "confidence"
    ∷ text "investigation_queries"
    ∷ text "draft_user_message"
    ∷ text "caveats"
    ∷ []

module _ ⦃p : Platform⦄ where
  -- `T\d{4}(?:\.\d{3})?`
  abbrev technique : Re
  technique = all_of (
      one (nat_eq b'T')
      ∷ exactly 4 (one is_decimal)
      ∷ opt (seq (one (nat_eq b'.')) (exactly 3 (one is_decimal)))
      ∷ [])

  unfoldable pub tid_pattern : Re
  unfolding exactly
  tid_pattern = all_of (
      start
      ∷ technique
      ∷ star (
          all_of
            (star space ∷ one (λ c. nat_eq c b'/' || nat_eq c b',') ∷ star space ∷ technique ∷ []))
      ∷ finish
      ∷ [])

  -- `_TID.match(tid)`
  unfoldable pub is_technique : Text → Bool
  unfolding tid_pattern match_at
  is_technique s = is_some (match_at tid_pattern none s)

unfoldable pub all_strings : Items → Bool
all_strings nil = true
all_strings (cons v vs) = is_str v && all_strings vs

abbrev pub item_count : Items → ℕ
item_count vs = length (items vs)

-- `v in names`: a list or a dict has no hash, and the test raises.
unfoldable pub is_member : List Text → Json → Result Bool
is_member names (str s) = ok (is_one_of names s)
is_member names (arr _) = err "TypeError"
is_member names (obj _) = err "TypeError"
is_member names _ = ok false

abbrev pub when : Bool → SchemaError → List SchemaError
when b e = if b then e ∷ [] else []

-- `sorted(set(p) - allowed)`
unfoldable pub additional : Fields → List SchemaError
unfolding sorted_set
additional fs =
    map additional_property (sorted_set (keep (λ k. not (is_one_of allowed k)) (keys fs)))

unfoldable pub missing_keys : List Text → Fields → List SchemaError
missing_keys [] fs = []
missing_keys (k ∷ ks) fs = when (not (has k fs)) (missing k) ++ missing_keys ks fs

abbrev pub summary_key : Text
summary_key = text "summary"

-- A single text becomes a list of one.
unfoldable pub coerce_summary : Fields → Json → Fields
coerce_summary fs (str s) = insert summary_key (arr (cons (str s) nil)) fs
coerce_summary fs _ = fs

-- `p["summary"]`, if it is there: its errors, and the dict with the list cut at five.
unfoldable pub check_summary : Fields → Option Json → List SchemaError × Fields
unfolding all_strings
check_summary fs none = ([], fs)
check_summary fs (some (arr vs)) =
    if ltb 5 (item_count vs)
    then (
      summary_over_5_lines
          ∷ when (not (all_strings (of_items (take 5 (items vs))))) summary_non_string_items,
      insert summary_key (arr (of_items (take 5 (items vs)))) fs,
    )
    else (when (not (all_strings vs)) summary_non_string_items, fs)
check_summary fs (some v) = (summary_not_list ∷ [], fs)

module _ ⦃p : Platform⦄ where
  -- `tid not in (None, "") and not (isinstance(tid, str) and _TID.match(tid))`
  unfoldable pub check_technique : Json → List SchemaError
  unfolding is_technique
  check_technique null = []
  check_technique (str s) =
      when (not (is_empty s) && not (is_technique s)) (technique_bad_syntax (str s))
  check_technique v = technique_bad_syntax v ∷ []

unfoldable pub check_queries : Json → List SchemaError
unfolding all_strings
check_queries null = []
check_queries (arr vs) =
    if all_strings vs
    then when (not (leb 1 (item_count vs) && leb (item_count vs) 4)) (queries_count (item_count vs))
    else queries_not_string_list ∷ []
check_queries v = queries_not_string_list ∷ []

abbrev pub is_other : Option Json → Bool
is_other none = false
is_other (some v) = not (is_str v)

unfoldable pub check_text : Text → Fields → List SchemaError
check_text k fs = when (is_other (lookup k fs)) (not_string k)

module _ ⦃p : Platform⦄ where
  -- The checks behind the one of the summary; `before` are the errors so far.
  unfoldable pub check_rest : List SchemaError → Fields → Result (Bool × List SchemaError × Json)
  unfolding check_technique check_queries check_text is_member text
  check_rest before fs =
      let disposition = get (text "disposition_suggestion") fs in
      let confidence = get (text "confidence") fs in
      is_member dispositions disposition >>= λ known. is_member confidences confidence >>= λ sure.
      let errors =
        before
        ++ (check_technique (get (text "attack_technique_id") fs)
            ++ (when (not known) (disposition_invalid disposition)
                ++ (when (not sure) (confidence_invalid confidence)
                    ++ (check_queries (get (text "investigation_queries") fs)
                        ++ (check_text (text "draft_user_message") fs
                            ++ check_text (text "caveats") fs))))) in
      ok (is_empty errors, errors, obj fs)

  unfoldable pub validate_output : Json → Result (Bool × List SchemaError × Json)
  unfolding additional missing_keys coerce_summary check_summary check_rest truthy text
  validate_output (obj fs) =
      if truthy (get (text "_parse_error") fs)
      then ok (false, not_an_object ∷ [], obj fs)
      else (let coerced = coerce_summary fs (get summary_key fs) in
          let (errors, cut) = check_summary coerced (lookup summary_key coerced) in
          check_rest (additional fs ++ (missing_keys required fs ++ errors)) cut)
  validate_output v = ok (false, not_an_object ∷ [], v)

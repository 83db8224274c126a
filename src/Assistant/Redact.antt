-- ===== src/Assistant/Redact.antt =====
-- redact.py: the redaction layer in front of every prompt, and its sanitized trace.
pub mod Rules
pub mod Steps
pub mod Independent
pub mod Origin
pub mod Trace
use alertmind.Prelude.{
  ℕ, zero, suc, ◌+◌, Bool, true, false, not, List, [], ◌∷◌, ◌++◌, Option, none, some, map, is_empty,
  length, min, replicate, take, if◌then◌else◌,
}
use alertmind.Text.{Text, text, is_in, nat_text}
use alertmind.Platform.{Platform, Bytes}
use alertmind.Dumps.{dump, sort_keys, unicode_style}
use alertmind.Json.{
  Json, null, bool, int, float, str, arr, obj, Items, nil, cons, Fields, end, field,
}
use alertmind.Regex.{Found, search, find_all, sub}
use alertmind.Assistant.Redact.Rules.{Rule, rules, sensitive_keys}

-- One row of the trace.
pub record Row : Type 0 where
  pub field_path : Text
  pub rule : Text
  pub source : Text
  pub masked_value : Text
  pub value_length : ℕ
  pub value_hash : Option Text
  pub value_type : Text
  pub removed : Bool

-- `"\u2022" * min(len(value), 6) + f" ({len(value)} chars)"`
unfoldable pub mask : Text → Text
mask value =
    replicate (min (length value) 6) 0x2022
    ++ (text " (" ++ (nat_text (length value) ++ text " chars)"))

-- `type(v).__name__`
unfoldable pub type_name : Json → Text
type_name null = text "NoneType"
type_name (bool _) = text "bool"
type_name (int _) = text "int"
type_name (float _) = text "float"
type_name (str _) = text "str"
type_name (arr _) = text "list"
type_name (obj _) = text "dict"

-- `f"{path}.{k}" if path else str(k)`
unfoldable pub child_path : Text → Text → Text
child_path path k = if is_empty path then k else path ++ b'.' ∷ k

-- `f"{path}[{i}]"`
unfoldable pub item_path : Text → ℕ → Text
item_path path i = path ++ b'[' ∷ nat_text i ++ b']' ∷ []

-- A trace that is being written, or none.
abbrev pub Trace : Type 0
Trace = Option (List Row)

abbrev pub add_rows : Trace → List Row → Trace
add_rows none rows = none
add_rows (some old) rows = some (old ++ rows)

module _ ⦃p : Platform⦄ where
  -- `for _name, pat, repl in _RULES: text = pat.sub(repl, text)`
  unfoldable pub apply_rules : List Rule → Text → Text
  apply_rules [] s = s
  apply_rules (r ∷ rs) s = apply_rules rs (sub r.pattern r.replacement s)

  unfoldable pub redact_text : Text → Text
  unfolding apply_rules
  redact_text s = apply_rules rules s

  -- The rules that match, in order.
  unfoldable pub matching : List Rule → Text → List Text
  matching [] s = []
  matching (r ∷ rs) s =
      let rest = matching rs s in if search r.pattern s then r.name ∷ rest else rest

  unfoldable pub find_secrets : Text → List Text
  unfolding matching
  find_secrets s = matching rules s

  abbrev pub tagged : Text → List Found → List (Text × Text)
  tagged name [] = []
  tagged name (f ∷ fs) = (name, f.whole) ∷ tagged name fs

  -- The matched substrings with the names of their rules.
  unfoldable pub matched_by : List Rule → Text → List (Text × Text)
  matched_by [] s = []
  matched_by (r ∷ rs) s = tagged r.name (find_all r.pattern s) ++ matched_by rs s

  unfoldable pub matched_values : Text → List (Text × Text)
  unfolding matched_by
  matched_values s = matched_by rules s

  unfoldable pub canonical_sensitive : Json → Text
  canonical_sensitive (str s) = s
  canonical_sensitive v = dump unicode_style 0 (sort_keys v)

  -- `ALERTMIND_TRACE_HMAC_KEY` is the first argument: without a key there is no fingerprint.
  unfoldable pub correlation_hash : Bytes → Text → Option Text
  correlation_hash [] s = none
  correlation_hash (k ∷ key) s = some (take 12 (p.hmac_sha256 (k ∷ key) s))

  unfoldable pub is_sensitive_key : Text → Bool
  is_sensitive_key k = search sensitive_keys k

  -- The row of a value under a sensitive key, and those of the matches in a string.
  unfoldable pub sensitive_row : Bytes → Text → Json → Row
  sensitive_row key path v =
      let raw = canonical_sensitive v in
      record {
        field_path = path;
        rule = text "sensitive_field";
        source = text "sensitive_key";
        masked_value = mask raw;
        value_length = length raw;
        value_hash = correlation_hash key raw;
        value_type = type_name v;
        removed = true;
      }

  abbrev pub match_row : Bytes → Text → Text → Text × Text → Row
  match_row key path redacted (name, raw) = record {
    field_path = path;
    rule = name;
    source = text "regex";
    masked_value = mask raw;
    value_length = length raw;
    value_hash = correlation_hash key raw;
    value_type = text "str";
    removed = not (is_in raw redacted);
  }

  unfoldable pub match_rows : Bytes → Text → Text → List Row
  match_rows key path s = map (match_row key path (redact_text s)) (matched_values s)

  unfoldable pub sensitive_mark : Json
  sensitive_mark = str (text "[REDACTED:sensitive_field]")

  -- The recursion that both entry points share.
  module _ (key : Bytes) where
    unfoldable mutual
      pub redact_node : Json → Text → Trace → Json × Trace
      redact_node (obj fs) path trace =
          let (out, trace') = redact_fields fs path trace in (obj out, trace')
      redact_node (arr vs) path trace =
          let (out, trace') = redact_items vs path 0 trace in (arr out, trace')
      redact_node (str s) path trace = (str (redact_text s), add_rows trace (match_rows key path s))
      redact_node v path trace = (v, trace)

      pub redact_fields : Fields → Text → Trace → Fields × Trace
      redact_fields end path trace = (end, trace)
      redact_fields (field k v fs) path trace =
          let (v', trace') =
            (if is_sensitive_key k
              then (sensitive_mark, add_rows trace (sensitive_row key (child_path path k) v ∷ []))
              else redact_node v (child_path path k) trace) in
          let (fs', trace'') = redact_fields fs path trace' in (field k v' fs', trace'')

      pub redact_items : Items → Text → ℕ → Trace → Items × Trace
      redact_items nil path i trace = (nil, trace)
      redact_items (cons v vs) path i trace =
          let (v', trace') = redact_node v (item_path path i) trace in
          let (vs', trace'') = redact_items vs path (suc i) trace' in (cons v' vs', trace'')

    unfoldable pub redact_alert : Json → Json
    unfolding redact_node
    redact_alert v = (redact_node v [] none).0

    abbrev pub rows_of : Trace → List Row
    rows_of none = []
    rows_of (some rows) = rows

    unfoldable pub redact_alert_with_trace : Json → Json × List Row
    unfolding redact_node
    redact_alert_with_trace v =
        let (out, trace) = redact_node v [] (some []) in (out, rows_of trace)

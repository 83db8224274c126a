-- ===== src/Assistant/Paste/Input.antt =====
-- paste_core.py: the parsing of a pasted text, and its limits.
use alertmind.Prelude.{
  ℕ, suc, ◌+◌, ◌⊎◌, inl, inr, Option, none, some, max, ltb, length, is_empty, if◌then◌else◌,
}
use alertmind.Text.{Text, text, strip}
use alertmind.Platform.{Platform}
use alertmind.Json.{Json, str, arr, obj, Items, nil, cons, Fields, end, field}
use alertmind.Json.Parsed.{loads_plain}

-- `PasteInputError`, by its message
pub data InputError : Type 0 where
  empty_input : InputError
  too_large : ℕ → InputError
  too_deep too_many_nodes : InputError

pub data ParseMode : Type 0 where
  plain_text json_object wrapped_json : ParseMode

abbrev pub max_paste_chars : ℕ
max_paste_chars = 50000

abbrev pub max_json_depth : ℕ
max_json_depth = 20

abbrev pub max_json_nodes : ℕ
max_json_nodes = 10000

-- `_depth(obj, d)`: the recursion stops below the limit.
unfoldable mutual
  pub depth : Json → ℕ → ℕ
  depth (obj fs) d = let below = depth_fields fs d in if ltb max_json_depth d then d else below
  depth (arr vs) d = let below = depth_items vs d in if ltb max_json_depth d then d else below
  depth _ d = d

  pub depth_fields : Fields → ℕ → ℕ
  depth_fields end d = d
  depth_fields (field k v fs) d = max (depth v (suc d)) (depth_fields fs d)

  pub depth_items : Items → ℕ → ℕ
  depth_items nil d = d
  depth_items (cons v vs) d = max (depth v (suc d)) (depth_items vs d)

unfoldable mutual
  pub nodes : Json → ℕ
  nodes (obj fs) = suc (nodes_fields fs)
  nodes (arr vs) = suc (nodes_items vs)
  nodes _ = 1

  pub nodes_fields : Fields → ℕ
  nodes_fields end = 0
  nodes_fields (field k v fs) = nodes v + nodes_fields fs

  pub nodes_items : Items → ℕ
  nodes_items nil = 0
  nodes_items (cons v vs) = nodes v + nodes_items vs

-- `{"alert_id": "PASTED-01", name: value}`
abbrev wrapped : Text → Json → Fields
wrapped name v = field (text "alert_id") (str (text "PASTED-01")) (field name v end)

-- An alert is a dict in each of the modes.
abbrev parsed_alert : Text → Option Json → Fields × ParseMode
parsed_alert s none = (wrapped (text "raw_text") (str s), plain_text)
parsed_alert s (some (obj fs)) = (fs, json_object)
parsed_alert s (some v) = (wrapped (text "raw_value") v, wrapped_json)

module _ ⦃p : Platform⦄ where
  unfoldable pub parse_input : Text → InputError ⊎ (Fields × ParseMode)
  unfolding text strip loads_plain
  parse_input s =
      if is_empty (strip s)
      then inl empty_input
      else (if ltb max_paste_chars (length s)
          then inl (too_large (length s))
          else inr (parsed_alert s (loads_plain (p.decode s))))

-- `_check_limits(obj)`: the error that it raises
unfoldable pub check_limits : Fields → Option InputError
unfolding depth nodes
check_limits fs =
    if ltb max_json_depth (depth (obj fs) 0)
    then some too_deep
    else (if ltb max_json_nodes (nodes (obj fs)) then some too_many_nodes else none)

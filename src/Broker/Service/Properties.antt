-- ===== src/Broker/Service/Properties.antt =====
-- operator_service.py: the properties of the service, as the service manager prints them.
pub mod Typed
use alertmind.Prelude.{
  ℕ, ◌+◌, ◌-◌, ◌*◌, ◌^◌, ℤ, pos, negsuc, Bool, true, false, not, ◌&&◌, ◌||◌, List, [], ◌∷◌, ◌++◌,
  Option, none, some, all, any, length, leb, ltb, nat_eq, is_empty, if◌then◌else◌, keep,
}
use alertmind.Text.{
  Text, text, text_eq, is_one_of, between, split_on, is_upper_ascii, is_lower_ascii, is_digit_ascii,
}
use alertmind.Text.Trim.{partition}
use alertmind.Platform.{Platform, Bytes}
use alertmind.Json.{
  Json, bool, int, str, arr, obj, Items, nil, cons, items, Fields, end, field, truthy,
}
use alertmind.Json.Dict.{get, has, insert, size}
use alertmind.Json.Parsed.{Codes, loads}
use alertmind.Result.{Result, ok, err, ◌>>=◌, ◌>>◌, require}
use alertmind.Broker.Core.{base, node}
use alertmind.Broker.Recovery.{is_text}

abbrev pub max_reply : ℕ
max_reply = 256 * 1024

unfoldable pub unit_name : Text
unit_name = text "wazuh-dashboard.service"

-- `GROUPS`: the properties of a group with their signatures, in the order of the query
unfoldable pub unit_properties : List (Text × Text)
unit_properties =
    (text "Id", text "s")
    ∷ (text "LoadState", text "s")
    ∷ (text "ActiveState", text "s")
    ∷ (text "FragmentPath", text "s")
    ∷ (text "DropInPaths", text "as")
    ∷ (text "NeedDaemonReload", text "b")
    ∷ []

unfoldable pub service_properties : List (Text × Text)
service_properties =
    (text "ExecStartEx", text "a(sasasttttuii)")
    ∷ (text "Environment", text "as")
    ∷ (text "EnvironmentFiles", text "a(sb)")
    ∷ (text "PassEnvironment", text "as")
    ∷ (text "UnsetEnvironment", text "as")
    ∷ (text "User", text "s")
    ∷ (text "Group", text "s")
    ∷ (text "WorkingDirectory", text "s")
    ∷ (text "RootDirectory", text "s")
    ∷ (text "RootImage", text "s")
    ∷ (text "MainPID", text "u")
    ∷ (text "ExecMainStartTimestampMonotonic", text "t")
    ∷ []

unfoldable pub properties_of : Text → Result (List (Text × Text))
properties_of group =
    if text_eq group (text "Unit")
    then ok unit_properties
    else (if text_eq group (text "Service") then ok service_properties else err "SERVICE_TARGET")

-- `RISK_NAMES`
unfoldable pub risk_names : List Text
risk_names =
    text "NODE_OPTIONS"
    ∷ text "NODE_PATH"
    ∷ text "NODE_HOME"
    ∷ text "NODE"
    ∷ text "LD_PRELOAD"
    ∷ text "LD_LIBRARY_PATH"
    ∷ text "PATH"
    ∷ []

-- `_string`: a text without control characters and surrogates
unfoldable pub is_plain_string : Json → Bool
is_plain_string (str s) = not (any (λ c. leb c 0x1F || nat_eq c 0x7F || between 0xD800 0xDFFF c) s)
is_plain_string _ = false

-- `_strings`
unfoldable pub is_string_list : Json → Bool
is_string_list (arr vs) = all is_plain_string (items vs)
is_string_list _ = false

-- `type(n) is int and 0 <= n < 2 ** bits`, and the same of a signed number
unfoldable pub is_unsigned : ℕ → Json → Bool
is_unsigned bits (int (pos n)) = ltb n (2 ^ bits)
is_unsigned bits _ = false

unfoldable pub is_signed : ℕ → Json → Bool
is_signed bits (int (pos n)) = ltb n (2 ^ (bits - 1))
is_signed bits (int (negsuc n)) = ltb n (2 ^ (bits - 1))
is_signed bits _ = false

abbrev is_bool : Json → Bool
is_bool (bool _) = true
is_bool _ = false

-- One file of the environment: its name, and whether it may be missing.
unfoldable pub is_file_row : Json → Bool
is_file_row (arr (cons name (cons flag nil))) = is_plain_string name && is_bool flag
is_file_row _ = false

abbrev all_of : List (Json → Bool) → List Json → Bool
all_of [] [] = true
all_of (t ∷ ts) (v ∷ vs) = t v && all_of ts vs
all_of _ _ = false

-- One command: its path, arguments and flags, four times, a process and two signed numbers.
unfoldable pub is_exec_row : Json → Bool
is_exec_row (arr row) =
    all_of
      (is_plain_string
        ∷ is_string_list
        ∷ is_string_list
        ∷ is_unsigned 64
        ∷ is_unsigned 64
        ∷ is_unsigned 64
        ∷ is_unsigned 64
        ∷ is_unsigned 32
        ∷ is_signed 32
        ∷ is_signed 32
        ∷ [])
      (items row)
is_exec_row _ = false

abbrev all_rows : (Json → Bool) → Json → Bool
all_rows test (arr rows) = all test (items rows)
all_rows test _ = false

-- `_valid`
unfoldable pub is_valid : Json → Text → Bool
is_valid v signature =
    if text_eq signature (text "u")
    then is_unsigned 32 v
    else if text_eq signature (text "t")
    then is_unsigned 64 v
    else if text_eq signature (text "s")
    then is_plain_string v
    else if text_eq signature (text "b")
    then is_bool v
    else if text_eq signature (text "as")
    then is_string_list v
    else if text_eq signature (text "a(sb)")
    then all_rows is_file_row v
    else if text_eq signature (text "a(sasasttttuii)")
    then all_rows is_exec_row v
    else false

abbrev pub json_codes : Codes
json_codes = record { duplicate = "SERVICE_JSON"; number = "SERVICE_JSON"; syntax = "SERVICE_JSON" }

-- `lines = raw.split(b'\n')`, without an empty last line
abbrev drop_last_blank : List Bytes → List Bytes
drop_last_blank [] = []
drop_last_blank ([] ∷ []) = []
drop_last_blank (line ∷ lines) = line ∷ drop_last_blank lines

unfoldable pub lines_of : Bytes → List Bytes
lines_of raw = drop_last_blank (split_on 10 raw)

-- The data of one record of the expected type.
unfoldable pub typed_data : Text → Json → Result Json
typed_data signature (obj fs) =
    require
      (nat_eq (size fs) 2
        && has (text "type") fs
        && has (text "data") fs
        && is_text (get (text "type") fs) signature
        && is_valid (get (text "data") fs) signature)
      "SERVICE_SHAPE"
    >> ok (get (text "data") fs)
typed_data signature _ = err "SERVICE_SHAPE"

module _ ⦃p : Platform⦄ where
  -- The loop over the lines and the properties.
  unfoldable pub parse_lines : List Bytes → List (Text × Text) → Fields → Result Fields
  parse_lines (line ∷ lines) ((name, signature) ∷ properties) result = do
    record' ← loads json_codes (p.parse line)
    value ← typed_data signature record'
    parse_lines lines properties (insert name value result)
  parse_lines _ _ result = ok result

  unfoldable pub parse_properties : Bytes → Text → Result Fields
  parse_properties raw group = do
    properties ← properties_of group
    require (ltb 0 (length raw) && leb (length raw) max_reply) "SERVICE_SIZE"
    require (nat_eq (length (lines_of raw)) (length properties)) "SERVICE_SHAPE"
    parse_lines (lines_of raw) properties end

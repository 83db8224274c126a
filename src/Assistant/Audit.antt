-- ===== src/Assistant/Audit.antt =====
-- audit.py: the ad-hoc audit log, a file with one JSON object in each line. A file is the list of its
-- lines, none where it does not exist; `os.makedirs` and `os.chmod` are left out.
pub mod Once
use alertmind.Prelude.{
  Bool, true, false, List, [], ◌∷◌, ◌++◌, Option, none, some, is_empty, if◌then◌else◌,
}
use alertmind.Text.{Text, text, text_eq, strip}
use alertmind.Platform.{Platform}
use alertmind.Json.{Json, null, str, obj, Fields}
use alertmind.Json.Dict.{get}
use alertmind.Json.Parsed.{loads_plain}
use alertmind.Dumps.{dump, unicode_style}

abbrev pub File : Type 0
File = Option (List Text)

abbrev pub lines_of : File → List Text
lines_of none = []
lines_of (some ls) = ls

-- `json.loads(line).get("record_id")`: every exception passes the line over.
abbrev id_of : Option Json → Option Json
id_of (some (obj fs)) = some (get (text "record_id") fs)
id_of _ = none

-- The record's id is a text, which only equals a text; an id that has no hash raises as well.
abbrev is_id : Text → Option Json → Bool
is_id id (some (str s)) = text_eq id s
is_id id _ = false

module _ ⦃p : Platform⦄ where
  -- Whether a line is the record of `id`.
  unfoldable pub is_record_of : Text → Text → Bool
  is_record_of id line =
      if is_empty (strip line)
      then false
      else is_id id (id_of (loads_plain (p.decode (strip line))))

  -- `record_id in _existing_ids(path)`
  unfoldable pub has_record : Text → List Text → Bool
  has_record id [] = false
  has_record id (line ∷ lines) =
      let later = has_record id lines in if is_record_of id line then true else later

  -- `json.dumps(record, ensure_ascii=False, default=str) + "\n"`, as the line that it adds
  unfoldable pub line_of : Fields → Text
  line_of record' = dump unicode_style 0 (obj record')

  -- The file behind a call, and what the call returns.
  unfoldable pub append_jsonl_once : File → Fields → Text → File × Bool
  append_jsonl_once file record' id =
      if has_record id (lines_of file)
      then (file, false)
      else (some (lines_of file ++ line_of record' ∷ []), true)

  -- A sequence of calls, in order.
  unfoldable pub append_all : File → List (Fields × Text) → File
  append_all file [] = file
  append_all file ((record', id) ∷ more) = append_all (append_jsonl_once file record' id).0 more

-- ===== src/Assistant/Injection.antt =====
-- injection.py: the scan for instruction-shaped text, and the gate in front of every call.
pub mod Rules
pub mod Delimiter
pub mod Gate
pub mod Block
use alertmind.Prelude.{
  ℕ, zero, suc, ◌+◌, ◌-◌, Bool, ◌||◌, List, [], ◌∷◌, ◌++◌, Option, none, some, any, take, is_some,
  if◌then◌else◌,
}
use alertmind.Text.{Text, text, text_eq, is_in}
use alertmind.Platform.{Platform}
use alertmind.Dumps.{dump, unicode_style}
use alertmind.Json.{Json, str, arr, obj, Items, nil, cons, Fields, end, field}
use alertmind.Regex.{match_at, search_from, find_start}
use alertmind.Assistant.Redact.{child_path, item_path}
use alertmind.Assistant.Injection.Rules.{Marker, markers}

unfoldable pub delim_open : Text
unfolding text
delim_open = text "<ALERT_DATA>"

unfoldable pub delim_close : Text
unfolding text
delim_close = text "</ALERT_DATA>"

abbrev pub snippet_max : ℕ
snippet_max = 120

pub record Hit : Type 0 where
  pub field_path : Text
  pub rule : Text
  pub snippet : Text

abbrev drop : ℕ → Text → Text
drop zero s = s
drop (suc n) [] = []
drop (suc n) (c ∷ s) = drop n s

-- `s[a:b]`
abbrev slice : ℕ → ℕ → Text → Text
slice a b s = take (b - a) (drop a s)

-- `value[max(0, m.start() - 10): m.start() + _SNIPPET_MAX][:_SNIPPET_MAX]`
unfoldable pub snippet_at : ℕ → Text → Text
snippet_at at value = take snippet_max (slice (at - 10) (at + snippet_max) value)

module _ ⦃p : Platform⦄ where
  abbrev add_hit : Text → Text → Marker → Option ℕ → List Hit → List Hit
  add_hit value path m none rest = rest
  add_hit value path m (some at) rest =
      record { field_path = path; rule = m.name; snippet = snippet_at at value } ∷ rest

  unfoldable pub scan_with : List Marker → Text → Text → List Hit
  scan_with [] value path = []
  scan_with (m ∷ ms) value path =
      add_hit value path m (find_start m.pattern value) (scan_with ms value path)

  unfoldable pub scan_text : Text → Text → List Hit
  unfolding scan_with markers
  scan_text value path = scan_with markers value path

  -- `f"{child}<key>"`
  abbrev key_path : Text → Text
  key_path child = child ++ text "<key>"

  unfoldable mutual
    unfolding scan_text

    pub walk : Json → Text → List Hit
    walk (obj fs) path = walk_fields fs path
    walk (arr vs) path = walk_items vs path 0
    walk (str s) path = scan_text s path
    walk _ path = []

    pub walk_fields : Fields → Text → List Hit
    walk_fields end path = []
    walk_fields (field k v fs) path =
        scan_text k (key_path (child_path path k))
        ++ (walk v (child_path path k) ++ walk_fields fs path)

    pub walk_items : Items → Text → ℕ → List Hit
    walk_items nil path i = []
    walk_items (cons v vs) path i = walk v (item_path path i) ++ walk_items vs path (suc i)

  unfoldable pub scan_alert : Json → List Hit
  unfolding walk
  scan_alert v = walk v []

  abbrev pub is_break : Hit → Bool
  is_break h = text_eq h.rule (text "delimiter_break")

  unfoldable pub has_boundary_break : List Hit → Bool
  has_boundary_break hits = any is_break hits

  -- The gate reads the printed alert.
  unfoldable pub contains_boundary : Json → Bool
  unfolding delim_open delim_close is_in dump
  contains_boundary v =
      is_in delim_open (dump unicode_style 0 v) || is_in delim_close (dump unicode_style 0 v)

-- ===== src/Assistant/Views.antt =====
-- views.py: how much of the ATT&CK labels a model sees.
pub mod Labels
pub mod Depth
use alertmind.Prelude.{
  ℕ, Bool, true, false, ◌&&◌, ◌||◌, List, [], ◌∷◌, ◌++◌, nat_eq, map, if◌then◌else◌,
}
use alertmind.Text.{Text, text, text_eq, is_one_of, ends_with, strip}
use alertmind.Platform.{Platform, is_decimal, lower}
use alertmind.Json.{
  Json, null, bool, int, float, str, arr, obj, Items, nil, cons, Fields, end, field,
}
use alertmind.Json.Dict.{erase}
use alertmind.Dumps.{dump, plain_style}
use alertmind.Text.Sets.{sorted_set}
use alertmind.Regex.{
  Re, Found, edge, one, seq, alt, star, opt, all_of, one_of, exactly, same_letter, space, search,
  find_all, sub,
}

-- `[._]`
abbrev dot_or_line : Re
dot_or_line = one (λ c. nat_eq c b'.' || nat_eq c b'_')

module _ ⦃p : Platform⦄ where
  abbrev pub digit : Re
  digit = one is_decimal

  -- `[tT]\d{4}(?:[._]\d{3})?`
  unfoldable pub tcode_any : Re
  unfolding exactly same_letter
  tcode_any =
      all_of
        (one (same_letter b't') ∷ exactly 4 digit ∷ opt (seq dot_or_line (exactly 3 digit)) ∷ [])

  unfoldable pub tcode : Re
  unfolding tcode_any
  tcode = all_of (
      opt (one (nat_eq b'('))
      ∷ edge
      ∷ tcode_any
      ∷ star (
          all_of
            (star space ∷ one (λ c. nat_eq c b'/' || nat_eq c b',') ∷ star space ∷ tcode_any ∷ []))
      ∷ edge
      ∷ opt (one (nat_eq b')'))
      ∷ [])

-- `s.replace("  ", " ")`
unfoldable pub single_spaces : Text → Text
single_spaces [] = []
single_spaces (c ∷ []) = c ∷ []
single_spaces (c ∷ d ∷ s) =
    let pair = single_spaces s in
    let later = single_spaces (d ∷ s) in
    if nat_eq c b' ' && nat_eq d b' ' then b' ' ∷ pair else c ∷ later

unfoldable pub label_keys : List Text
unfolding text
label_keys = text "mitre" ∷ text "rule_id" ∷ text "rule_description" ∷ text "evidence_file" ∷ []

unfoldable pub label_denylist : List Text
unfolding text
label_denylist = text "audit.key" ∷ []

-- `for k in keys: a.pop(k, None)`
unfoldable pub erase_all : List Text → Fields → Fields
erase_all [] fs = fs
erase_all (k ∷ ks) fs = erase_all ks (erase k fs)

module _ ⦃p : Platform⦄ where
  unfoldable pub strip_text : Text → Text
  unfolding tcode tcode_any sub single_spaces strip
  strip_text s = strip (single_spaces (sub tcode_any (λ _. []) (sub tcode (λ _. []) s)))

  unfoldable mutual
    pub strip_tcodes : Json → Json
    strip_tcodes (obj fs) = obj (strip_fields fs)
    strip_tcodes (arr vs) = arr (strip_items vs)
    strip_tcodes (str s) = str (strip_text s)
    strip_tcodes v = v

    pub strip_fields : Fields → Fields
    strip_fields end = end
    strip_fields (field k v fs) = field k (strip_tcodes v) (strip_fields fs)

    pub strip_items : Items → Items
    strip_items nil = nil
    strip_items (cons v vs) = cons (strip_tcodes v) (strip_items vs)

  unfoldable pub looks_like_technique_label : Json → Bool
  unfolding tcode_any search
  looks_like_technique_label (str s) = search tcode_any s
  looks_like_technique_label _ = false

  unfoldable pub is_denied : Text → Bool
  unfolding label_denylist lower
  is_denied k = is_one_of label_denylist (lower k)

  unfoldable pub is_key_shaped : Text → Bool
  unfolding lower ends_with text
  is_key_shaped k =
      text_eq (lower k) (text "key")
      || (ends_with (text ".key") (lower k) || ends_with (text "_key") (lower k))

  -- The two `continue`s of the loop.
  unfoldable pub is_label : Text → Json → Bool
  is_label k v = is_denied k || is_key_shaped k && looks_like_technique_label v

  unfoldable mutual
    pub drop_label_subkeys : Json → Json
    drop_label_subkeys (obj fs) = obj (drop_label_fields fs)
    drop_label_subkeys (arr vs) = arr (drop_label_items vs)
    drop_label_subkeys v = v

    pub drop_label_fields : Fields → Fields
    drop_label_fields end = end
    drop_label_fields (field k v fs) =
        let v' = drop_label_subkeys v in
        let rest = drop_label_fields fs in if is_label k v then rest else field k v' rest

    pub drop_label_items : Items → Items
    drop_label_items nil = nil
    drop_label_items (cons v vs) = cons (drop_label_subkeys v) (drop_label_items vs)

  -- The alert is a dict.
  unfoldable pub to_evaluation_view : Fields → Fields
  unfolding erase_all drop_label_fields strip_fields
  to_evaluation_view fs = strip_fields (drop_label_fields (erase_all label_keys fs))

  abbrev wholes : List Found → List Text
  wholes [] = []
  wholes (f ∷ fs) = f.whole ∷ wholes fs

  unfoldable pub evaluation_view_leaks : Fields → List Text
  unfolding find_all
  evaluation_view_leaks fs = sorted_set (wholes (find_all tcode_any (dump plain_style 0 (obj fs))))

  unfoldable pub apply_view : Fields → Text → Fields
  unfolding text
  apply_view fs view =
      let reduced = to_evaluation_view fs in
      if text_eq view (text "evaluation") then reduced else fs

-- ===== src/Dumps.antt =====
-- `json.dumps`: the text of a value, in the four layouts that the program asks for.
pub mod Mentions
pub mod Confined
use alertmind.Prelude.{
  ◌≡◌, refl, ℤ, negsuc, ℕ, ◌-◌, ◌+◌, ◌*◌, ◌/◌, ◌%◌, Bool, true, false, ◌&&◌, List, [], ◌∷◌, ◌++◌,
  leb, ltb, nat_eq, zero, suc, if◌then◌else◌,
}
use alertmind.Text.{Text, text, nat_text, int_text}
use alertmind.Platform.{Platform, plain}
use alertmind.Json.{
  Json, null, bool, int, float, str, arr, obj, Items, nil, cons, Fields, end, field,
}

abbrev pub backslash : ℕ
backslash = 92

abbrev hex_digit : ℕ → ℕ
hex_digit n = if ltb n 10 then b'0' + n else b'a' + (n - 10)

-- `'\\u{0:04x}'.format(n)`
unfoldable pub hex_escape : ℕ → Text
hex_escape n =
    backslash
    ∷ b'u'
    ∷ hex_digit (n / 4096 % 16)
    ∷ hex_digit (n / 256 % 16)
    ∷ hex_digit (n / 16 % 16)
    ∷ hex_digit (n % 16)
    ∷ []

-- One character of a string, with `ensure_ascii` or without.
unfoldable pub escape_char : Bool → ℕ → Text
escape_char ascii c =
    if nat_eq c b'"'
    then backslash ∷ b'"' ∷ []
    else if nat_eq c backslash
    then backslash ∷ backslash ∷ []
    else if nat_eq c 10
    then backslash ∷ b'n' ∷ []
    else if nat_eq c 13
    then backslash ∷ b'r' ∷ []
    else if nat_eq c 9
    then backslash ∷ b't' ∷ []
    else if nat_eq c 12
    then backslash ∷ b'f' ∷ []
    else if nat_eq c 8
    then backslash ∷ b'b' ∷ []
    else if ltb c 32
    then hex_escape c
    else if ascii && leb 0x10000 c
    then hex_escape (0xD800 + (c - 0x10000) / 1024) ++ hex_escape (0xDC00 + (c - 0x10000) % 1024)
    else if ascii && ltb 126 c
    then hex_escape c
    else c ∷ []

unfoldable pub escape : Bool → Text → Text
escape ascii [] = []
escape ascii (c ∷ s) = escape_char ascii c ++ escape ascii s

-- The separators, `ensure_ascii`, and the indentation of `indent=2` where it is asked for.
pub record Style : Type 0 where
  pub item_separator : Text
  pub key_separator : Text
  pub ascii : Bool
  pub indented : Bool

unfoldable pub quote : Style → Text → Text
quote st s = b'"' ∷ escape st.ascii s ++ b'"' ∷ []

spaces : ℕ → Text
spaces zero = []
spaces (suc n) = b' ' ∷ b' ' ∷ spaces n

-- The line break before an element at a depth, where the style has one.
unfoldable pub newline : Style → ℕ → Text
unfolding spaces
newline st depth = if st.indented then 10 ∷ spaces depth else []

module _ ⦃p : Platform⦄ (st : Style) where
  unfoldable mutual
    pub dump : ℕ → Json → Text
    dump depth null = text "null"
    dump depth (bool true) = text "true"
    dump depth (bool false) = text "false"
    dump depth (int n) = int_text n
    dump depth (float bits) = p.float_text bits
    dump depth (str s) = quote st s
    dump depth (arr nil) = text "[]"
    dump depth (arr (cons v vs)) =
        b'[' ∷ newline st (suc depth) ++ (dump (suc depth) v ++ dump_items depth vs)
    dump depth (obj end) = text "{}"
    dump depth (obj (field k v fs)) =
        b'{' ∷ newline st (suc depth)
        ++ (quote st k ++ (st.key_separator ++ (dump (suc depth) v ++ dump_fields depth fs)))

    -- What follows an element, and what follows a member.
    pub dump_items : ℕ → Items → Text
    dump_items depth nil = newline st depth ++ b']' ∷ []
    dump_items depth (cons v vs) =
        st.item_separator ++ (newline st (suc depth) ++ (dump (suc depth) v ++ dump_items depth vs))

    pub dump_fields : ℕ → Fields → Text
    dump_fields depth end = newline st depth ++ b'}' ∷ []
    dump_fields depth (field k v fs) =
        st.item_separator
        ++ (newline st (suc depth)
            ++ (quote st k ++ (st.key_separator ++ (dump (suc depth) v ++ dump_fields depth fs))))

-- `json.dumps(v)`
abbrev pub plain_style : Style
plain_style = record {
  item_separator = b',' ∷ b' ' ∷ [];
  key_separator = b':' ∷ b' ' ∷ [];
  ascii = true;
  indented = false;
}

-- `json.dumps(v, ensure_ascii=False)`
abbrev pub unicode_style : Style
unicode_style = record plain_style { ascii = false }

-- `json.dumps(v, indent=2)`
abbrev pub indent_style : Style
indent_style = record plain_style { item_separator = b',' ∷ []; indented = true }

-- `json.dumps(v, separators=(',', ':'))`
abbrev pub compact_style : Style
compact_style = record plain_style { item_separator = b',' ∷ []; key_separator = b':' ∷ [] }

-- `a < b` of two texts, by code points.
unfoldable pub text_lt : Text → Text → Bool
text_lt s [] = false
text_lt [] (d ∷ t) = true
text_lt (c ∷ s) (d ∷ t) = if nat_eq c d then text_lt s t else ltb c d

unfoldable pub insert_sorted : Text → Json → Fields → Fields
unfolding text_lt
insert_sorted k v end = field k v end
insert_sorted k v (field j w fs) =
    if text_lt k j then field k v (field j w fs) else field j w (insert_sorted k v fs)

-- `sort_keys=True`, at every depth
unfoldable mutual
  unfolding insert_sorted

  pub sort_keys : Json → Json
  sort_keys (arr vs) = arr (sort_keys_items vs)
  sort_keys (obj fs) = obj (sort_fields fs)
  sort_keys v = v

  pub sort_keys_items : Items → Items
  sort_keys_items nil = nil
  sort_keys_items (cons v vs) = cons (sort_keys v) (sort_keys_items vs)

  pub sort_fields : Fields → Fields
  sort_fields end = end
  sort_fields (field k v fs) = insert_sorted k (sort_keys v) (sort_fields fs)

-- `json.dumps(v, sort_keys=True, separators=(',', ':'))`
unfoldable pub canonical : ⦃p : Platform⦄ → Json → Text
unfolding dump sort_keys quote escape escape_char hex_escape newline int_text text
canonical v = dump compact_style 0 (sort_keys v)

dump_sample :
    dump ⦃p = plain⦄ plain_style 0 (
      obj (
        field
          (text "a")
          (arr (cons (int (negsuc 11)) (cons null nil)))
          (field (text "b\"é") (str (text "é")) end)))
    ≡ text "{\"a\": [-12, null], \"b\\\"\\u00e9\": \"\\u00e9\"}"
unfolding dump text quote escape escape_char hex_escape newline int_text nat_text
dump_sample = refl

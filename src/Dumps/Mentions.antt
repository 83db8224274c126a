-- ===== src/Dumps/Mentions.antt =====
-- What a text inside a value becomes in the printed value.
use alertmind.Prelude.{
  ℕ, suc, ◌≡◌, refl, ◌⊎◌, inl, inr, Bool, true, false, ◌||◌, ◌&&◌, [], ◌∷◌, ◌++◌, some, arith, All,
  subst, Bool-cases, nat_eq, nat_eq_iff, not, leb, Option-cases,
}
use alertmind.Text.{Text, after?, starts_with, is_in}
use alertmind.Text.Laws.{is_in-append_left, is_in-append_right, is_in_of_starts_with}
use alertmind.Platform.{Platform}
use alertmind.Json.{
  Json, null, bool, int, float, str, arr, obj, Items, nil, cons, Fields, end, field,
}
use alertmind.Dumps.{
  Style, dump, dump_items, dump_fields, escape, escape_char, quote, newline, backslash,
}

-- Some string of the value, or some key at any depth, contains the text.
unfoldable mutual
  pub mentions : Text → Json → Bool
  mentions t (str s) = is_in t s
  mentions t (arr vs) = mentions_items t vs
  mentions t (obj fs) = mentions_fields t fs
  mentions t v = false

  pub mentions_items : Text → Items → Bool
  mentions_items t nil = false
  mentions_items t (cons v vs) = mentions t v || mentions_items t vs

  pub mentions_fields : Text → Fields → Bool
  mentions_fields t end = false
  mentions_fields t (field k v fs) = is_in t k || (mentions t v || mentions_fields t fs)

-- A character that JSON prints as it is: printable ASCII but the quote and the backslash.
abbrev pub is_plain : ℕ → Bool
is_plain c = leb 32 c && leb c 126 && not (nat_eq c 34) && not (nat_eq c backslash)

abbrev pub IsPlain : Text → Type 0
IsPlain = All (λ c. is_plain c ≡ true)

escape_char_of_plain : (a : Bool) (c : ℕ) → is_plain c ≡ true → escape_char a c ≡ c ∷ []
unfolding escape_char
escape_char_of_plain a c h = ground arith

after?-escape :
    (a : Bool) (t s r : Text)
    → IsPlain t
    → after? t s ≡ some r
    → after? t (escape a s) ≡ some (escape a r)
unfolding after? escape
after?-escape a [] s r h e = ground arith
after?-escape a (c ∷ t) [] r h e = cc
after?-escape a (c ∷ t) (d ∷ s) r (p, h) e = elim (Bool-cases (nat_eq c d)) [
  | inr differ ↦ cc
  | inl same ↦
      let plain_d : is_plain d ≡ true =
        subst (λ x. is_plain x ≡ true) ((nat_eq_iff c d).0 same) p in
      rw (escape_char_of_plain a d plain_d) (ground (arith, after?-escape a t s r h))
]

starts_with-escape :
    (a : Bool) (t s : Text) → IsPlain t → starts_with t s ≡ true → starts_with t (escape a s) ≡ true
unfolding starts_with
starts_with-escape a t s h e = elim (Option-cases (after? t s)) [
  | inl missing ↦ ground arith
  | inr (r, found) ↦ ground (arith, after?-escape a t s r h)
]

is_in-escape : (a : Bool) (t s : Text) → IsPlain t → is_in t s ≡ true → is_in t (escape a s) ≡ true
unfolding is_in escape
is_in-escape a t [] h e = e
is_in-escape a t (c ∷ s) h e = elim (Bool-cases (starts_with t (c ∷ s))) [
  | inl here ↦ is_in_of_starts_with t _ (unfold escape in starts_with-escape a t (c ∷ s) h here)
  | inr later ↦ is_in-append_left t (escape_char a c) _ (is_in-escape a t s h (ground arith))
]

is_in-cons : (t : Text) (c : ℕ) (s : Text) → is_in t s ≡ true → is_in t (c ∷ s) ≡ true
is_in-cons t c s e = is_in-append_left t (c ∷ []) s e

is_in-quote : (st : Style) (t s : Text) → IsPlain t → is_in t s ≡ true → is_in t (quote st s) ≡ true
unfolding quote
is_in-quote st t s h e =
    is_in-cons t _ _ (is_in-append_right t (escape st.ascii s) _ (is_in-escape st.ascii t s h e))

or-cases : (a b : Bool) → (a || b) ≡ true → (a ≡ true) ⊎ (b ≡ true)
or-cases true b e = inl refl
or-cases false b e = inr e

module _ ⦃p : Platform⦄ (st : Style) (t : Text) (h : IsPlain t) where
  -- In one part or the other of a text.
  join_in : (a b : Text) → (is_in t a ≡ true) ⊎ (is_in t b ≡ true) → is_in t (a ++ b) ≡ true
  join_in a b (inl x) = is_in-append_right t a b x
  join_in a b (inr y) = is_in-append_left t a b y

  mutual
    unfolding mentions dump

    dump_json : (d : ℕ) (v : Json) → mentions t v ≡ true → is_in t (dump st d v) ≡ true
    dump_json d (str s) e = is_in-quote st t s h e
    dump_json d (arr (cons v vs)) e = is_in-cons t _ _ (
        is_in-append_left t (newline st (suc d)) _ (
          join_in (dump st (suc d) v) _ (elim (or-cases _ _ e) [
            | inl x ↦ inl (dump_json (suc d) v x)
            | inr y ↦ inr (dump_json_items d vs y)
          ])))
    dump_json d (obj (field k v fs)) e = is_in-cons t _ _ (
        is_in-append_left t (newline st (suc d)) _ (
          join_in (quote st k) _ (elim (or-cases (is_in t k) _ e) [
            | inl x ↦ inl (is_in-quote st t k h x)
            | inr y ↦ inr (
                is_in-append_left t st.key_separator _ (
                  join_in (dump st (suc d) v) _ (elim (or-cases (mentions t v) _ y) [
                    | inl z ↦ inl (dump_json (suc d) v z)
                    | inr w ↦ inr (dump_json_fields d fs w)
                  ])))
          ])))
    dump_json d (arr nil) e = cc
    dump_json d (obj end) e = cc
    dump_json d null e = cc
    dump_json d (bool b) e = cc
    dump_json d (int n) e = cc
    dump_json d (float bits) e = cc

    dump_json_items :
        (d : ℕ) (vs : Items) → mentions_items t vs ≡ true → is_in t (dump_items st d vs) ≡ true
    dump_json_items d nil e = cc
    dump_json_items d (cons v vs) e = is_in-append_left t st.item_separator _ (
        is_in-append_left t (newline st (suc d)) _ (
          join_in (dump st (suc d) v) _ (elim (or-cases _ _ e) [
            | inl x ↦ inl (dump_json (suc d) v x)
            | inr y ↦ inr (dump_json_items d vs y)
          ])))

    dump_json_fields :
        (d : ℕ) (fs : Fields) → mentions_fields t fs ≡ true → is_in t (dump_fields st d fs) ≡ true
    dump_json_fields d end e = cc
    dump_json_fields d (field k v fs) e = is_in-append_left t st.item_separator _ (
        is_in-append_left t (newline st (suc d)) _ (
          join_in (quote st k) _ (elim (or-cases (is_in t k) _ e) [
            | inl x ↦ inl (is_in-quote st t k h x)
            | inr y ↦ inr (
                is_in-append_left t st.key_separator _ (
                  join_in (dump st (suc d) v) _ (elim (or-cases (mentions t v) _ y) [
                    | inl z ↦ inl (dump_json (suc d) v z)
                    | inr w ↦ inr (dump_json_fields d fs w)
                  ])))
          ])))

  -- A text of plain printable characters that some string or key of a value contains, at any depth,
  -- stands in the printed value, in every layout.
  pub dump-mentions : (d : ℕ) (v : Json) → mentions t v ≡ true → is_in t (dump st d v) ≡ true
  dump-mentions d v e = dump_json d v e

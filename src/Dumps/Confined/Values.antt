-- ===== src/Dumps/Confined/Values.antt =====
-- The parts of a printed value, and where a text that begins with `<` can stand in them.
use mathlib.Core.List.{append_assoc, append-nil}
use alertmind.Prelude.{
  ℕ, zero, suc, ◌≡◌, refl, ap, sym, ◌∙◌, inl, inr, Bool, true, false, ◌||◌, [], ◌∷◌, ◌++◌, arith,
  Bool-cases, nat_eq,
}
use alertmind.Text.{Text, text, is_in, starts_with, after?}
use alertmind.Text.Digits.{int_text-All}
use alertmind.Platform.{Platform}
use alertmind.Json.{
  Json, null, bool, int, float, str, arr, obj, Items, nil, cons, Fields, end, field,
}
use alertmind.Dumps.{Style, dump, dump_items, dump_fields, escape, quote, newline, spaces}
use alertmind.Dumps.Mentions.{mentions, mentions_items, mentions_fields, IsPlain}
use alertmind.Dumps.Confined.{
  IsClean, Confined, confined_clean, confined_append, weaken, escape_in, t,
}

spaces-IsClean : (n : ℕ) → IsClean (spaces n)
unfolding spaces
spaces-IsClean zero = tt
spaces-IsClean (suc n) = (refl, (refl, spaces-IsClean n))

newline-IsClean : (st : Style) (d : ℕ) → IsClean (newline st d)
unfolding newline
newline-IsClean st d = elim (Bool-cases st.indented) [
  | inl on ↦ rw on (refl, spaces-IsClean d)
  | inr off ↦ rw off tt
]

or_left : (a b : Bool) → a ≡ true → (a || b) ≡ true
or_left a b h = ground arith

or_right : (a b : Bool) → b ≡ true → (a || b) ≡ true
or_right a b h = ground arith

-- A style whose separators have no `<`.
unfoldable pub CleanStyle : Style → Type 0
CleanStyle st = IsClean st.item_separator × IsClean st.key_separator

module _ ⦃p : Platform⦄ (u : Text) (plain_u : IsPlain u) (st : Style) (clean : CleanStyle st)
    (floats : (n : ℕ) → IsClean (p.float_text n)) where
  abbrev found : Text
  found = t u plain_u

  skip_quote : (x : Text) → is_in found (34 ∷ x) ≡ true → is_in found x ≡ true
  unfolding is_in starts_with after?
  skip_quote x e = ground arith

  quote_confined : (s : Text) → Confined u plain_u (quote st s) (is_in found s ≡ true)
  unfolding Confined quote
  quote_confined s r e =
      escape_in u plain_u st.ascii s r
        (ap (is_in found) (sym (append_assoc (escape st.ascii s) (34 ∷ []) r)) ∙ skip_quote _ e)

  -- A member and what follows it.
  member_confined :
      (d : ℕ) (k : Text) (v : Json) (fs : Fields)
      → Confined u plain_u (dump st (suc d) v) (mentions found v ≡ true)
      → Confined u plain_u (dump_fields st d fs) (mentions_fields found fs ≡ true)
      → Confined u plain_u
          (quote st k ++ (st.key_separator ++ (dump st (suc d) v ++ dump_fields st d fs)))
          ((is_in found k || (mentions found v || mentions_fields found fs)) ≡ true)
  unfolding CleanStyle
  member_confined d k v fs here later =
      let inner =
        λ (x : Bool) (f : x ≡ true → (mentions found v || mentions_fields found fs) ≡ true)
            (e : x ≡ true).
          or_right (is_in found k) (mentions found v || mentions_fields found fs) (f e) in
      confined_append u plain_u _ (quote st k) _
        (weaken u plain_u _ (or_left (is_in found k) (mentions found v || mentions_fields found fs))
          (quote_confined k))
        (confined_append u plain_u _ st.key_separator _ (confined_clean u plain_u _ _ clean.1) (
          confined_append u plain_u _ (dump st (suc d) v) (dump_fields st d fs)
            (weaken u plain_u _ (inner _ (or_left (mentions found v) (mentions_fields found fs)))
              here)
            (weaken u plain_u _ (inner _ (or_right (mentions found v) (mentions_fields found fs)))
              later)))

  mutual
    unfolding mentions dump CleanStyle text

    dump_confined : (d : ℕ) (v : Json) → Confined u plain_u (dump st d v) (mentions found v ≡ true)
    dump_confined d null =
        confined_clean u plain_u _ (text "null") (refl, (refl, (refl, (refl, tt))))
    dump_confined d (bool true) =
        confined_clean u plain_u _ (text "true") (refl, (refl, (refl, (refl, tt))))
    dump_confined d (bool false) =
        confined_clean u plain_u _ (text "false") (refl, (refl, (refl, (refl, (refl, tt)))))
    dump_confined d (int n) =
        confined_clean u plain_u _ _
          (int_text-All (λ c. nat_eq 60 c ≡ false) (λ x l. ground arith) n refl)
    dump_confined d (float n) = confined_clean u plain_u _ _ (floats n)
    dump_confined d (str s) = quote_confined s
    dump_confined d (arr nil) = confined_clean u plain_u _ (text "[]") (refl, (refl, tt))
    dump_confined d (arr (cons v vs)) =
        confined_append u plain_u _ (b'[' ∷ newline st (suc d))
          (dump st (suc d) v ++ dump_items st d vs)
          (confined_clean u plain_u _ _ (refl, newline-IsClean st (suc d)))
          (confined_append u plain_u _ (dump st (suc d) v) (dump_items st d vs)
            (weaken u plain_u _ (or_left (mentions found v) (mentions_items found vs))
              (dump_confined (suc d) v))
            (weaken u plain_u _ (or_right (mentions found v) (mentions_items found vs))
              (dump_items_confined d vs)))
    dump_confined d (obj end) = confined_clean u plain_u _ (text "{}") (refl, (refl, tt))
    dump_confined d (obj (field k v fs)) =
        confined_append u plain_u _ (b'{' ∷ newline st (suc d)) _
          (confined_clean u plain_u _ _ (refl, newline-IsClean st (suc d)))
          (member_confined d k v fs (dump_confined (suc d) v) (dump_fields_confined d fs))

    dump_items_confined :
        (d : ℕ) (vs : Items)
        → Confined u plain_u (dump_items st d vs) (mentions_items found vs ≡ true)
    dump_items_confined d nil =
        confined_append u plain_u _ (newline st d) (b']' ∷ [])
          (confined_clean u plain_u _ _ (newline-IsClean st d))
          (confined_clean u plain_u _ _ (refl, tt))
    dump_items_confined d (cons v vs) =
        confined_append u plain_u _ st.item_separator _ (confined_clean u plain_u _ _ clean.0) (
          confined_append u plain_u _ (newline st (suc d)) _
            (confined_clean u plain_u _ _ (newline-IsClean st (suc d)))
            (confined_append u plain_u _ (dump st (suc d) v) (dump_items st d vs)
              (weaken u plain_u _ (or_left (mentions found v) (mentions_items found vs))
                (dump_confined (suc d) v))
              (weaken u plain_u _ (or_right (mentions found v) (mentions_items found vs))
                (dump_items_confined d vs))))

    dump_fields_confined :
        (d : ℕ) (fs : Fields)
        → Confined u plain_u (dump_fields st d fs) (mentions_fields found fs ≡ true)
    dump_fields_confined d end =
        confined_append u plain_u _ (newline st d) (b'}' ∷ [])
          (confined_clean u plain_u _ _ (newline-IsClean st d))
          (confined_clean u plain_u _ _ (refl, tt))
    dump_fields_confined d (field k v fs) =
        confined_append u plain_u _ st.item_separator _ (confined_clean u plain_u _ _ clean.0) (
          confined_append u plain_u _ (newline st (suc d)) _
            (confined_clean u plain_u _ _ (newline-IsClean st (suc d)))
            (member_confined d k v fs (dump_confined (suc d) v) (dump_fields_confined d fs)))

  -- A printed value holds the text only if some string or some key of it does.
  pub mentions-dump :
      (d : ℕ) (v : Json) → is_in found (dump st d v) ≡ true → mentions found v ≡ true
  unfolding Confined is_in
  mentions-dump d v e =
      elim (dump_confined d v [] (ap (is_in found) (append-nil (dump st d v)) ∙ e)) [
        | inl held ↦ held
        | inr never ↦ absurd (cc)
      ]

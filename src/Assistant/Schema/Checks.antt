-- ===== src/Assistant/Schema/Checks.antt =====
-- What the single checks of schema.py establish of a field.
use alertmind.Prelude.{
  ◌≤◌, ◌≡◌, refl, ap, sym, ◌∙◌, ◌⊎◌, inl, inr, Bool, true, false, not, ◌&&◌, List, [], ◌∷◌, Option,
  none, some, Bool-cases, arith, All, is_empty, is_some, append-empty, is_empty_nil, ltb, leb,
}
use alertmind.Text.{Text, text, is_one_of}
use alertmind.Text.Sets.{sorted_set, insert_text}
use alertmind.Platform.{Platform}
use alertmind.Json.{Json, null, bool, int, float, str, arr, obj, Items, nil, cons, Fields}
use alertmind.Json.Dict.{lookup, or_null, get, has, lookup-insert}
use alertmind.Result.{ok, ok-injective}
use alertmind.Assistant.Schema.{
  SchemaError, dispositions, confidences, is_technique, all_strings, item_count, is_member, when,
  missing_keys, summary_key, coerce_summary, check_summary, check_technique, check_queries,
  check_text, is_other, queries_count, queries_not_string_list, summary_non_string_items,
}

pub when_empty : (b : Bool) (e : SchemaError) → when b e ≡ [] → b ≡ false
when_empty true e h = absurd (cc)
when_empty false e h = refl

-- Under the key stands a text, or one of the names.
unfoldable pub HasText : Text → Fields → Type 0
HasText k fs = (s : Text) × (lookup k fs ≡ some (str s))

unfoldable pub HasMember : List Text → Text → Fields → Type 0
HasMember names k fs = (s : Text) × (lookup k fs ≡ some (str s)) × (is_one_of names s ≡ true)

-- At most five lines; none, or one to four queries; no technique, or text that is empty or codes.
unfoldable pub HasSummary : Fields → Type 0
HasSummary fs =
    (vs : Items) × (lookup summary_key fs ≡ some (arr vs))
    × (all_strings vs ≡ true)
    × (item_count vs ≤ 5)

unfoldable pub HasQueries : Json → Type 0
HasQueries v =
    (v ≡ null)
    ⊎ ((vs : Items) × (v ≡ arr vs)
        × (all_strings vs ≡ true)
        × (1 ≤ item_count vs)
        × (item_count vs ≤ 4))

module _ ⦃p : Platform⦄ where
  unfoldable pub HasTechnique : Json → Type 0
  HasTechnique v = (v ≡ null) ⊎ ((s : Text) × (v ≡ str s) × ((s ≡ []) ⊎ (is_technique s ≡ true)))

  unfoldable pub IsAnswer : Fields → Type 0
  IsAnswer fs =
      HasSummary fs
      × (HasTechnique (get (text "attack_technique_id") fs)
          × (HasMember dispositions (text "disposition_suggestion") fs
              × (HasMember confidences (text "confidence") fs
                  × (HasQueries (get (text "investigation_queries") fs)
                      × (HasText (text "draft_user_message") fs × HasText (text "caveats") fs)))))

  passes : (a b : Bool) → a ≡ false → (not a && not b) ≡ false → b ≡ true
  passes a b h k = ground arith

  pub technique_of_check : (v : Json) → check_technique v ≡ [] → HasTechnique v
  unfolding check_technique HasTechnique
  technique_of_check null h = inl refl
  technique_of_check (str s) h =
      let off = when_empty _ _ h in
      inr (
        s,
        refl,
        elim (Bool-cases (is_empty s)) [
          | inl blank ↦ inl (is_empty_nil s blank)
          | inr filled ↦ inr (passes (is_empty s) (is_technique s) filled off)
        ],
      )
  technique_of_check (bool b) h = absurd (cc)
  technique_of_check (int b) h = absurd (cc)
  technique_of_check (float b) h = absurd (cc)
  technique_of_check (arr b) h = absurd (cc)
  technique_of_check (obj b) h = absurd (cc)

pub queries_of_check : (v : Json) → check_queries v ≡ [] → HasQueries v
unfolding check_queries HasQueries
queries_of_check null h = inl refl
queries_of_check (arr vs) h = elim (Bool-cases (all_strings vs)) [
  | inl strings ↦
      let e : check_queries (arr vs)
          ≡ when (not (leb 1 (item_count vs) && leb (item_count vs) 4))
              (queries_count (item_count vs)) =
        rw (strings, check_queries) refl in
      let off = when_empty _ _ (sym e ∙ h) in inr (vs, refl, strings, ground arith, ground arith)
  | inr others ↦
      let e : check_queries (arr vs) ≡ queries_not_string_list ∷ [] =
        rw (others, check_queries) refl in
      absurd (cc)
]
queries_of_check (bool b) h = absurd (cc)
queries_of_check (int b) h = absurd (cc)
queries_of_check (float b) h = absurd (cc)
queries_of_check (str b) h = absurd (cc)
queries_of_check (obj b) h = absurd (cc)

pub member_of_check :
    (names : List Text) (k : Text) (fs : Fields)
    → is_member names (get k fs) ≡ ok true
    → HasMember names k fs
unfolding HasMember is_member
member_of_check names k fs h = found (lookup k fs) refl h
  where
    found :
        (o : Option Json)
        → lookup k fs ≡ o
        → is_member names (or_null o) ≡ ok true
        → (s : Text) × (lookup k fs ≡ some (str s)) × (is_one_of names s ≡ true)
    found (some (str s)) e g = (s, e, ok-injective g)
    found none e g = absurd (cc)
    found (some null) e g = absurd (cc)
    found (some (bool b)) e g = absurd (cc)
    found (some (int b)) e g = absurd (cc)
    found (some (float b)) e g = absurd (cc)
    found (some (arr b)) e g = absurd (cc)
    found (some (obj b)) e g = absurd (cc)

pub text_of_check : (k : Text) (fs : Fields) → has k fs ≡ true → check_text k fs ≡ [] → HasText k fs
unfolding HasText check_text
text_of_check k fs h g = found (lookup k fs) refl h (when_empty (is_other (lookup k fs)) _ g)
  where
    found :
        (o : Option Json)
        → lookup k fs ≡ o
        → is_some o ≡ true
        → is_other o ≡ false
        → (s : Text) × (lookup k fs ≡ some (str s))
    found (some (str s)) e a b = (s, e)
    found none e a b = absurd (cc)
    found (some null) e a b = absurd (cc)
    found (some (bool x)) e a b = absurd (cc)
    found (some (int x)) e a b = absurd (cc)
    found (some (float x)) e a b = absurd (cc)
    found (some (arr x)) e a b = absurd (cc)
    found (some (obj x)) e a b = absurd (cc)

pub not_missing :
    (ks : List Text) (fs : Fields) → missing_keys ks fs ≡ [] → All (λ k. has k fs ≡ true) ks
unfolding missing_keys
not_missing [] fs h = tt
not_missing (k ∷ ks) fs h =
    let (here, later) = append-empty _ _ h in
    let off = when_empty (not (has k fs)) _ here in (ground arith, not_missing ks fs later)

insert_text_filled : (a : Text) (bs : List Text) → is_empty (insert_text a bs) ≡ false
unfolding insert_text
insert_text_filled a [] = refl
insert_text_filled a (b ∷ bs) = ground arith

pub sorted_set_empty : (xs : List Text) → sorted_set xs ≡ [] → xs ≡ []
unfolding sorted_set insert_text
sorted_set_empty [] h = refl
sorted_set_empty (a ∷ xs) h = let e = insert_text_filled a (sorted_set xs) in absurd (cc)

-- The summary, once it is there.
pub summary_of_check :
    (fs : Fields) (o : Option Json)
    → lookup summary_key fs ≡ o
    → is_some o ≡ true
    → (check_summary fs o).0 ≡ []
    → ((check_summary fs o).1 ≡ fs) × HasSummary fs
unfolding check_summary HasSummary
summary_of_check fs none e a h = absurd (cc)
summary_of_check fs (some (arr vs)) e a h = elim (Bool-cases (ltb 5 (item_count vs))) [
  | inl long ↦
      let e : is_empty (check_summary fs (some (arr vs))).0 ≡ false =
        rw (long, check_summary) refl in
      absurd (cc)
  | inr short ↦
      let whole : check_summary fs (some (arr vs))
          ≡ (when (not (all_strings vs)) summary_non_string_items, fs) =
        rw (short, check_summary) refl in
      let off =
        when_empty (not (all_strings vs)) summary_non_string_items
          (ap (λ x. x.0) (sym whole) ∙ h) in
      (ap (λ x. x.1) whole, (vs, e, ground arith, ground arith))
]
summary_of_check fs (some (str s)) e a h = absurd (cc)
summary_of_check fs (some null) e a h = absurd (cc)
summary_of_check fs (some (bool s)) e a h = absurd (cc)
summary_of_check fs (some (int s)) e a h = absurd (cc)
summary_of_check fs (some (float s)) e a h = absurd (cc)
summary_of_check fs (some (obj s)) e a h = absurd (cc)

-- The coercion takes no key away.
pub has-coerce_summary :
    (k : Text) (fs : Fields) (v : Json) → has k fs ≡ true → has k (coerce_summary fs v) ≡ true
unfolding coerce_summary
has-coerce_summary k fs (str s) h =
    rw (lookup-insert k summary_key (arr (cons (str s) nil)) fs) (ground arith)
has-coerce_summary k fs null h = h
has-coerce_summary k fs (bool s) h = h
has-coerce_summary k fs (int s) h = h
has-coerce_summary k fs (float s) h = h
has-coerce_summary k fs (arr s) h = h
has-coerce_summary k fs (obj s) h = h

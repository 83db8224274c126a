-- ===== src/Assistant/Schema/Complete.antt =====
-- The answers that schema.py accepts as they are.
use alertmind.Prelude.{
  subst, ℕ, ◌≤◌, ◌≡◌, ◌↔◌, refl, ap, sym, ◌∙◌, inl, inr, Bool, true, false, not, ◌&&◌, List, [],
  ◌∷◌, keep, none, Bool-cases, arith, All, is_empty, ltb, le→leb,
}
use alertmind.Text.{Text, text, text_eq, is_one_of}
use alertmind.Text.Laws.{text_eq_iff}
use alertmind.Text.Sets.{sorted_set}
use alertmind.Platform.{Platform}
use alertmind.Json.{Json, obj, Fields, end, field, truthy}
use alertmind.Json.Dict.{lookup, get, has, keys}
use alertmind.Result.{ok}
use alertmind.Assistant.Schema.{
  dispositions, confidences, required, allowed, item_count, is_member, additional, missing_keys,
  summary_key, coerce_summary, check_summary, check_technique, check_queries, check_text,
  check_rest, validate_output,
}
use alertmind.Assistant.Schema.Checks.{
  HasSummary, HasQueries, HasTechnique, HasMember, HasText, IsAnswer,
}
use alertmind.Assistant.Schema.Accept.{
  OnlyAllowed, accepted_parts, validate_output-IsAnswer, obj-injective,
}

-- Nothing is kept of a list on which the test fails everywhere.
keep_none {ℓ} :
    {A : Type ℓ} (p : A → Bool) (xs : List A) → All (λ x. p x ≡ false) xs → keep p xs ≡ []
keep_none p [] h = refl
keep_none p (x ∷ xs) (here, later) = rw here (keep_none p xs later)

module _ ⦃p : Platform⦄ (fs : Fields) where
  additional_of_allowed : OnlyAllowed fs → additional fs ≡ []
  unfolding OnlyAllowed additional sorted_set
  additional_of_allowed h = rw (keep_none _ (keys fs) h) refl

  missing_keys_of_there : (ks : List Text) → All (λ k. has k fs ≡ true) ks → missing_keys ks fs ≡ []
  unfolding missing_keys
  missing_keys_of_there [] h = refl
  missing_keys_of_there (k ∷ ks) (here, later) = rw here (missing_keys_of_there ks later)

  check_text_of : (k : Text) → HasText k fs → check_text k fs ≡ []
  unfolding HasText check_text
  check_text_of k (s, e) = rw e refl

  is_member_of :
      (names : List Text) (k : Text) → HasMember names k fs → is_member names (get k fs) ≡ ok true
  unfolding HasMember is_member
  is_member_of names k (s, e, known) = rw (e, known) refl

  check_queries_of : (v : Json) → HasQueries v → check_queries v ≡ []
  unfolding HasQueries check_queries
  check_queries_of v h = elim h [
    | inl e ↦ rw e refl
    | inr (vs, e, strings, low, high) ↦ rw (e, strings, le→leb _ _ low, le→leb _ _ high) refl
  ]

  check_technique_of : (v : Json) → HasTechnique v → check_technique v ≡ []
  unfolding HasTechnique check_technique
  check_technique_of v h = elim h [
    | inl e ↦ rw e refl
    | inr (s, e, k) ↦ elim k [
      | inl blank ↦ rw (e, blank) refl
      | inr code ↦ rw (e, code, never (not (is_empty s))) refl
    ]
  ]
    where
      never : (b : Bool) → b && false ≡ false
      never true = refl
      never false = refl

  -- A summary that is a list of at most five texts is neither coerced nor cut.
  summary_of :
      HasSummary fs
      → (coerce_summary fs (get summary_key fs) ≡ fs)
        × (check_summary fs (lookup summary_key fs) ≡ ([], fs))
  unfolding HasSummary coerce_summary check_summary
  summary_of (vs, e, strings, le) = (rw e refl, rw (e, strings, not_longer (item_count vs) le) refl)
    where
      not_longer : (n : ℕ) → n ≤ 5 → ltb 5 n ≡ false
      not_longer n h = ground arith

-- What the validator's own checks demand of a dict. `JSON_SCHEMA` demands more, see Schema/Formal.
module _ ⦃p : Platform⦄ where
  unfoldable pub Conforms : Fields → Type 0
  Conforms fs = OnlyAllowed fs × (All (λ k. has k fs ≡ true) required × IsAnswer fs)

  -- A key outside the schema is not there.
  foreign :
      (k : Text) (fs : Fields)
      → is_one_of allowed k ≡ false
      → All (λ j. not (is_one_of allowed j) ≡ false) (keys fs)
      → lookup k fs ≡ none
  unfolding lookup
  foreign k end out h = refl
  foreign k (field j v fs) out (here, later) = elim (Bool-cases (text_eq j k)) [
    | inl same ↦
        let e : j ≡ k = (text_eq_iff j k).0 same in
        absurd (clash j (ap (is_one_of allowed) e ∙ out) here)
    | inr other ↦ rw other (foreign k fs out later)
  ]
    where
      clash : (j : Text) → is_one_of allowed j ≡ false → not (is_one_of allowed j) ≡ false → ⊥
      clash j a b = ground arith

  unmarked : (fs : Fields) → OnlyAllowed fs → truthy (get (text "_parse_error") fs) ≡ false
  unfolding OnlyAllowed truthy
  unmarked fs h = rw (foreign (text "_parse_error") fs (unfold allowed text text_eq in refl) h) refl

  validate_output-conforming :
      (fs : Fields) → Conforms fs → validate_output (obj fs) ≡ ok (true, [], obj fs)
  unfolding Conforms IsAnswer validate_output check_rest
  validate_output-conforming fs
        (
          only,
          (there, (lines, (technique, (disposition, (confidence, (queries, (draft, caveats))))))),
        ) =
      let (same, cut) = summary_of fs lines in
      rw
        (
          unmarked fs only,
          same,
          cut,
          additional_of_allowed fs only,
          missing_keys_of_there fs required there,
          is_member_of fs dispositions _ disposition,
          is_member_of fs confidences _ confidence,
          check_technique_of fs _ technique,
          check_queries_of fs _ queries,
          check_text_of fs _ draft,
          check_text_of fs _ caveats,
        )
        refl

  conforming_of_accepted :
      (fs : Fields) → validate_output (obj fs) ≡ ok (true, [], obj fs) → Conforms fs
  unfolding Conforms
  conforming_of_accepted fs h =
      let (_, _, _, _, there, _, _) = accepted_parts fs [] (obj fs) h in
      let (_, only, (q, same, answer)) = validate_output-IsAnswer fs [] (obj fs) h in
      (only, (there, subst IsAnswer (sym (obj-injective same)) answer))

  -- The validator accepts an answer without an error and without changing it exactly if it demands
  -- no more of it.
  pub validate_output_iff :
      (fs : Fields) → (validate_output (obj fs) ≡ ok (true, [], obj fs)) ↔ Conforms fs
  validate_output_iff fs = (conforming_of_accepted fs, validate_output-conforming fs)

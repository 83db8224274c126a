-- ===== src/Assistant/Schema/Accept.antt =====
-- What an answer that schema.py accepts holds.
use alertmind.Prelude.{
  ◌≡◌, refl, ap, sym, ◌∙◌, subst, inl, inr, Bool, true, false, not, List, [], ◌∷◌, ◌++◌, Bool-cases,
  All, append-empty, map-empty, is_empty_nil, keep-empty,
}
use alertmind.Text.{Text, text, text_eq, is_one_of}
use alertmind.Platform.{Platform}
use alertmind.Json.{Json, null, bool, int, float, str, arr, obj, nil, cons, Fields, truthy}
use alertmind.Json.Dict.{lookup, or_null, get, has, keys, lookup-insert}
use alertmind.Result.{Result, ok, ok-injective, after_ok}
use alertmind.Assistant.Schema.{
  SchemaError, dispositions, confidences, required, allowed, is_member, when, additional,
  missing_keys, summary_key, coerce_summary, check_summary, check_technique, check_queries,
  check_text, check_rest, validate_output, not_an_object,
}
use alertmind.Assistant.Schema.Checks.{
  HasSummary, IsAnswer, technique_of_check, queries_of_check, member_of_check, text_of_check,
  not_missing, sorted_set_empty, summary_of_check, has-coerce_summary,
}

module _ ⦃p : Platform⦄ where
  -- No key of the answer is outside the schema.
  unfoldable pub OnlyAllowed : Fields → Type 0
  OnlyAllowed fs = All (λ k. not (is_one_of allowed k) ≡ false) (keys fs)

  allowed_of_check : (fs : Fields) → additional fs ≡ [] → OnlyAllowed fs
  unfolding additional OnlyAllowed
  allowed_of_check fs h = keep-empty _ (keys fs) (sorted_set_empty _ (map-empty _ _ h))

  first_of : (fs : Fields) → All (λ k. has k fs ≡ true) required → has summary_key fs ≡ true
  unfolding required
  first_of fs (h, _) = h

  -- The checks behind the summary, passed.
  pub Passed : Fields → Type 0
  Passed fs =
      (check_technique (get (text "attack_technique_id") fs) ≡ [])
      × ((is_member dispositions (get (text "disposition_suggestion") fs) ≡ ok true)
          × ((is_member confidences (get (text "confidence") fs) ≡ ok true)
              × ((check_queries (get (text "investigation_queries") fs) ≡ [])
                  × ((check_text (text "draft_user_message") fs ≡ [])
                      × (check_text (text "caveats") fs ≡ [])))))

  shown :
      (b : Bool) (m : Result Bool) (e : SchemaError) → m ≡ ok b → when (not b) e ≡ [] → m ≡ ok true
  shown true m e h k = h
  shown false m e h k = absurd (cc)

  Passed-of_check :
      (before : List SchemaError) (fs : Fields) (errors : List SchemaError) (out : Json)
      → check_rest before fs ≡ ok (true, errors, out)
      → (errors ≡ []) × (before ≡ []) × (out ≡ obj fs) × Passed fs
  unfolding check_rest Passed
  Passed-of_check before fs errors out h =
      let disposition = get (text "disposition_suggestion") fs in
      let confidence = get (text "confidence") fs in
      after_ok (is_member dispositions disposition) h (λ known e h'.
        after_ok (is_member confidences confidence) h' (λ sure e' h''.
          let same = ok-injective h'' in
          let none' = is_empty_nil _ (ap (λ x. x.0) same) in
          let (a, r1) = append-empty before _ none' in
          let (b, r2) = append-empty _ _ r1 in
          let (c, r3) = append-empty _ _ r2 in
          let (d, r4) = append-empty _ _ r3 in
          let (q, r5) = append-empty _ _ r4 in
          let (t, u) = append-empty _ _ r5 in
          (
            sym (ap (λ x. x.1) same) ∙ none',
            a,
            sym (ap (λ x. x.2) same),
            (b, (shown known _ _ e c, (shown sure _ _ e' d, (q, (t, u))))),
          )))

  abbrev coerced : Fields → Fields
  coerced fs = coerce_summary fs (get summary_key fs)

  -- What the checks of an accepted answer established, and the dict that comes back.
  pub accepted_parts :
      (fs : Fields) (errors : List SchemaError) (out : Json)
      → validate_output (obj fs) ≡ ok (true, errors, out)
      → (truthy (get (text "_parse_error") fs) ≡ false)
        × (errors ≡ [])
        × (out ≡ obj (coerced fs))
        × OnlyAllowed fs
        × All (λ k. has k fs ≡ true) required
        × HasSummary (coerced fs)
        × Passed (coerced fs)
  unfolding validate_output
  accepted_parts fs errors out h = elim (Bool-cases (truthy (get (text "_parse_error") fs))) [
    | inl failed ↦
        let e : validate_output (obj fs) ≡ ok (false, not_an_object ∷ [], obj fs) =
          rw (failed, validate_output) refl in
        absurd (cc)
    | inr parsed ↦
        let checked = check_summary (coerced fs) (lookup summary_key (coerced fs)) in
        let e : validate_output (obj fs)
            ≡ check_rest (additional fs ++ (missing_keys required fs ++ checked.0)) checked.1 =
          rw (parsed, validate_output) refl in
        let (clean, before, same, passed) = Passed-of_check _ checked.1 errors out (sym e ∙ h) in
        let (extra, rest) = append-empty (additional fs) _ before in
        let (gaps, summary) = append-empty (missing_keys required fs) _ rest in
        let there = not_missing required fs gaps in
        let (uncut, lines) =
          summary_of_check (coerced fs) (lookup summary_key (coerced fs)) refl
            (has-coerce_summary summary_key fs (get summary_key fs) (first_of fs there)) summary in
        (
          parsed,
          clean,
          same ∙ ap obj uncut,
          allowed_of_check fs extra,
          there,
          lines,
          subst Passed uncut passed,
        )
  ]

  -- An accepted answer has no error and no key outside the schema, and what comes back holds a summary
  -- of at most five texts, a technique that is null, empty or a list of technique codes, a disposition
  -- and a confidence out of the fixed names, queries that are null or one to four texts, and two texts
  -- for the user message and the caveats. Nothing is said of the technique's name.
  pub validate_output-IsAnswer :
      (fs : Fields) (errors : List SchemaError) (out : Json)
      → validate_output (obj fs) ≡ ok (true, errors, out)
      → (errors ≡ []) × OnlyAllowed fs × ((q : Fields) × (out ≡ obj q) × IsAnswer q)
  unfolding IsAnswer required Passed
  validate_output-IsAnswer fs errors out h =
      let (_, clean, same, only, there, lines, passed) = accepted_parts fs errors out h in
      let (_, (_, (_, (_, (_, (has_draft, (has_caveats, _))))))) = there in
      let kept = λ (k : Text) (known : has k fs ≡ true).
        has-coerce_summary k fs (get summary_key fs) known in
      let (technique', (known, (sure, (queries, (draft, caveats))))) = passed in
      (
        clean,
        only,
        (
          coerced fs,
          same,
          (
            lines,
            (
              technique_of_check _ technique',
              (
                member_of_check dispositions _ (coerced fs) known,
                (
                  member_of_check confidences _ (coerced fs) sure,
                  (
                    queries_of_check _ queries,
                    (
                      text_of_check _ (coerced fs) (kept _ has_draft) draft,
                      text_of_check _ (coerced fs) (kept _ has_caveats) caveats,
                    ),
                  ),
                ),
              ),
            ),
          ),
        ),
      )

  pub obj-injective : {fs gs : Fields} → obj fs ≡ obj gs → fs ≡ gs
  obj-injective h = cc

  lookup-coerce_summary :
      (k : Text) (fs : Fields) (v : Json)
      → text_eq summary_key k ≡ false
      → lookup k (coerce_summary fs v) ≡ lookup k fs
  unfolding coerce_summary
  lookup-coerce_summary k fs (str s) h =
      rw (lookup-insert k summary_key (arr (cons (str s) nil)) fs, h) refl
  lookup-coerce_summary k fs null h = refl
  lookup-coerce_summary k fs (bool b) h = refl
  lookup-coerce_summary k fs (int b) h = refl
  lookup-coerce_summary k fs (float b) h = refl
  lookup-coerce_summary k fs (arr b) h = refl
  lookup-coerce_summary k fs (obj b) h = refl

  -- No accepted answer carries the mark of a text without JSON.
  pub validate_output-unmarked :
      (v : Json) (errors : List SchemaError) (q : Fields)
      → validate_output v ≡ ok (true, errors, obj q)
      → truthy (get (text "_parse_error") q) ≡ false
  unfolding validate_output
  validate_output-unmarked (obj fs) errors q h =
      let (unmarked, _, same, _, _, _, _) = accepted_parts fs errors (obj q) h in
      let e : get (text "_parse_error") q ≡ get (text "_parse_error") fs =
        ap (get (text "_parse_error")) (obj-injective same)
        ∙ ap or_null (
            lookup-coerce_summary (text "_parse_error") fs (get summary_key fs)
              (unfold text_eq text in refl)) in
      ap truthy e ∙ unmarked
  validate_output-unmarked null errors q h = absurd (cc)
  validate_output-unmarked (bool b) errors q h = absurd (cc)
  validate_output-unmarked (int b) errors q h = absurd (cc)
  validate_output-unmarked (float b) errors q h = absurd (cc)
  validate_output-unmarked (str b) errors q h = absurd (cc)
  validate_output-unmarked (arr b) errors q h = absurd (cc)

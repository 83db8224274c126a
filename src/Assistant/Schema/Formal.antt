-- ===== src/Assistant/Schema/Formal.antt =====
-- What `JSON_SCHEMA` of schema.py demands of an answer, against what `validate_output` accepts.
use alertmind.Prelude.{
  ◌≤◌, ◌≡◌, ◌≢◌, ◌↔◌, ◌⊎◌, refl, ap, ◌∙◌, inl, inr, true, false, [], none, some, All,
}
use alertmind.Text.{Text, text}
use alertmind.Platform.{Platform}
use alertmind.Json.{Json, null, str, arr, obj, Items, Fields}
use alertmind.Json.Dict.{lookup, get, has}
use alertmind.Result.{ok}
use alertmind.Assistant.Schema.{
  dispositions, confidences, required, is_technique, all_strings, item_count, validate_output,
}
use alertmind.Assistant.Schema.Checks.{
  HasSummary, HasQueries, HasTechnique, HasMember, HasText, IsAnswer,
}
use alertmind.Assistant.Schema.Accept.{OnlyAllowed}
use alertmind.Assistant.Schema.Complete.{Conforms, validate_output_iff}

-- `{"type": "array", "items": {"type": "string"}, "minItems": 1, "maxItems": 4}`
IsQueryList : Json → Type 0
IsQueryList v =
    (vs : Items) × (v ≡ arr vs)
    × (all_strings vs ≡ true)
    × (1 ≤ item_count vs)
    × (item_count vs ≤ 4)

-- `{"type": ["string", "null"]}`, for a key that may be missing.
pub IsNullableText : Text → Fields → Type 0
IsNullableText k fs =
    (lookup k fs ≡ none) ⊎ ((lookup k fs ≡ some null) ⊎ ((s : Text) × (lookup k fs ≡ some (str s))))

module _ ⦃p : Platform⦄ where
  -- `{"type": ["string", "null"], "pattern": ...}`: the pattern is asked of every text.
  IsTechniqueValue : Json → Type 0
  IsTechniqueValue v = (v ≡ null) ⊎ ((s : Text) × (v ≡ str s) × (is_technique s ≡ true))

  -- The formal schema, key by key.
  pub MeetsSchema : Fields → Type 0
  MeetsSchema fs =
      OnlyAllowed fs
      × All (λ k. has k fs ≡ true) required
      × HasSummary fs
      × IsTechniqueValue (get (text "attack_technique_id") fs)
      × IsNullableText (text "attack_technique_name") fs
      × HasMember dispositions (text "disposition_suggestion") fs
      × HasMember confidences (text "confidence") fs
      × IsQueryList (get (text "investigation_queries") fs)
      × HasText (text "draft_user_message") fs
      × HasText (text "caveats") fs

  blank : is_technique [] ≡ false
  unfolding is_technique
  blank = refl

  code_of : (v : Json) → HasTechnique v → v ≢ str [] → IsTechniqueValue v
  unfolding HasTechnique IsTechniqueValue
  code_of v (inl e) h = inl e
  code_of v (inr (s, e, inl empty)) h = absurd (h (e ∙ ap str empty))
  code_of v (inr (s, e, inr code)) h = inr (s, e, code)

  filled : (v : Json) → IsTechniqueValue v → HasTechnique v × (v ≢ str [])
  unfolding HasTechnique IsTechniqueValue
  filled v (inl e) = (inl e, λ h. cc)
  filled v (inr (s, e, code)) = (inr (s, e, inr code), λ h. let f = blank in cc)

  list_of : (v : Json) → HasQueries v → v ≢ null → IsQueryList v
  unfolding HasQueries IsQueryList
  list_of v (inl e) h = absurd (h e)
  list_of v (inr l) h = l

  listed : (v : Json) → IsQueryList v → HasQueries v × (v ≢ null)
  unfolding HasQueries IsQueryList
  listed v (vs, e, strings, low, high) = (inr (vs, e, strings, low, high), λ h. cc)

  -- A dict meets `JSON_SCHEMA` exactly if the validator accepts it without an error and unchanged and
  -- none of the three things holds that the validator lets through and the schema does not: an empty
  -- technique, a technique's name that is neither a text nor null, and null in place of the queries.
  pub validate_output-MeetsSchema :
      (fs : Fields)
      → MeetsSchema fs ↔ (
          (validate_output (obj fs) ≡ ok (true, [], obj fs))
          × (get (text "attack_technique_id") fs ≢ str [])
          × IsNullableText (text "attack_technique_name") fs
          × (get (text "investigation_queries") fs ≢ null))
  unfolding MeetsSchema Conforms IsAnswer
  validate_output-MeetsSchema fs = (
    λ (only, there, lines, code, name, disposition, confidence, queries, draft, caveats).
        let (technique, not_blank) = filled _ code in
        let (listed', not_null) = listed _ queries in
        (
          (validate_output_iff fs).1 (
            only,
            (there, (lines, (technique, (disposition, (confidence, (listed', (draft, caveats))))))),
          ),
          not_blank,
          name,
          not_null,
        ),
    λ (accepted, not_blank, name, not_null).
        let (
          only,
          (there, (lines, (technique, (disposition, (confidence, (queries, (draft, caveats))))))),
        ) =
          (validate_output_iff fs).0 accepted in
        (
          only,
          there,
          lines,
          code_of _ technique not_blank,
          name,
          disposition,
          confidence,
          list_of _ queries not_null,
          draft,
          caveats,
        ),
  )

-- ===== src/Assistant/Redact/Origin.antt =====
-- What a row of the trace of redact.py shows, and of which value of the alert.
use alertmind.Prelude.{
  ◌≡◌, refl, ap, sym, ◌⊎◌, inl, inr, true, not, List, [], ◌∷◌, ◌++◌, none, map, All, min, length,
  is_empty, replicate,
}
use alertmind.Text.{Text, text, is_in, nat_text}
use alertmind.Platform.{Platform, Bytes}
use alertmind.Json.{Json, str, arr, obj, Items, nil, cons, Fields, end, field}
use alertmind.Regex.{Found, find_all}
use alertmind.Regex.Meaning.{In, In-append}
use alertmind.Assistant.Redact.Rules.{Rule, rules}
use alertmind.Assistant.Redact.{
  Row, redact_text, tagged, matched_by, matched_values, match_rows, match_row, mask,
  correlation_hash, canonical_sensitive, type_name, sensitive_row,
}

-- The values at any depth below a value.
unfoldable mutual
  pub below : Json → List Json
  below (obj fs) = field_values fs
  below (arr vs) = item_values vs
  below v = []

  pub field_values : Fields → List Json
  field_values end = []
  field_values (field k v fs) = (v ∷ below v) ++ field_values fs

  pub item_values : Items → List Json
  item_values nil = []
  item_values (cons v vs) = (v ∷ below v) ++ item_values vs

-- The fixed names of the rules.
pub rule_names : List Text
rule_names = map (λ (r : Rule). r.name) rules

module _ ⦃p : Platform⦄ where
  -- The row of a text that a rule matched in one of the strings.
  IsMatch : List Json → Text → Row → Type 0
  IsMatch values raw r =
      (s : Text) × In (str s) values
      × In (r.rule, raw) (matched_values s)
      × In r.rule rule_names
      × (r.source ≡ text "regex")
      × (r.value_type ≡ text "str")
      × (r.removed ≡ not (is_in raw (redact_text s)))

  -- The row of one of the values under a sensitive key.
  IsField : List Json → Text → Row → Type 0
  IsField values raw r =
      (v : Json) × In v values
      × (raw ≡ canonical_sensitive v)
      × (r.rule ≡ text "sensitive_field")
      × (r.source ≡ text "sensitive_key")
      × (r.value_type ≡ type_name v)
      × (r.removed ≡ true)

  -- The row is about one of these values: it shows the length of the removed text, bullets for it and
  -- its keyed fingerprint, and besides the path only the fixed names of a rule, a source and a type,
  -- and whether the text is gone. Without a key there is no fingerprint.
  pub IsSanitized : Bytes → List Json → Row → Type 0
  IsSanitized key values r =
      (raw : Text) × (r.value_length ≡ length raw)
      × (r.masked_value
          ≡ replicate (min (length raw) 6) 0x2022
            ++ (text " (" ++ (nat_text (length raw) ++ text " chars)")))
      × (r.value_hash ≡ correlation_hash key raw)
      × (is_empty key ≡ true → r.value_hash ≡ none)
      × (IsMatch values raw r ⊎ IsField values raw r)

  pub IsSanitized-wider :
      (key : Bytes) (values wider : List Json)
      → ((v : Json) → In v values → In v wider)
      → (rows : List Row) → All (IsSanitized key values) rows
      → All (IsSanitized key wider) rows
  unfolding IsSanitized IsMatch IsField
  IsSanitized-wider key values wider inside [] h = tt
  IsSanitized-wider key values wider inside (r ∷ rows)
        ((raw, size, masked, hash, unkeyed, inl (s, here, a, b, c, d, e)), h) =
      (
        (raw, size, masked, hash, unkeyed, inl (s, inside _ here, a, b, c, d, e)),
        IsSanitized-wider key values wider inside rows h,
      )
  IsSanitized-wider key values wider inside (r ∷ rows)
        ((raw, size, masked, hash, unkeyed, inr (v, here, a, b, c, d, e)), h) =
      (
        (raw, size, masked, hash, unkeyed, inr (v, inside _ here, a, b, c, d, e)),
        IsSanitized-wider key values wider inside rows h,
      )

  correlation_hash_unkeyed :
      (key : Bytes) (s : Text) → is_empty key ≡ true → correlation_hash key s ≡ none
  unfolding correlation_hash
  correlation_hash_unkeyed [] s h = refl
  correlation_hash_unkeyed (k ∷ key) s h = cc

  tagged_named :
      (name : Text) (fs : List Found) (m : Text × Text) → In m (tagged name fs) → name ≡ m.0
  tagged_named name [] m h = absurd h
  tagged_named name (f ∷ fs) m (inl e) = ap (λ x. x.0) (sym e)
  tagged_named name (f ∷ fs) m (inr h) = tagged_named name fs m h

  -- The name beside a match is that of a rule.
  matched_by_named :
      (rs : List Rule) (s : Text) (m : Text × Text)
      → In m (matched_by rs s)
      → In m.0 (map (λ (r : Rule). r.name) rs)
  unfolding matched_by
  matched_by_named [] s m h = absurd h
  matched_by_named (r ∷ rs) s m h =
      elim ((In-append m (tagged r.name (find_all r.pattern s)) (matched_by rs s)).0 h) [
        | inl here ↦ inl (sym (tagged_named r.name _ m here))
        | inr later ↦ inr (matched_by_named rs s m later)
      ]

  pub match_rows-IsSanitized :
      (key : Bytes) (path s : Text) → All (IsSanitized key (str s ∷ [])) (match_rows key path s)
  unfolding match_rows mask IsSanitized IsMatch rule_names matched_values
  match_rows-IsSanitized key path s = rows (matched_values s) (λ m h. h)
    where
      rows :
          (ms : List (Text × Text))
          → ((m : Text × Text) → In m ms → In m (matched_values s))
          → All (IsSanitized key (str s ∷ [])) (map (match_row key path (redact_text s)) ms)
      rows [] inside = tt
      rows ((name, raw) ∷ ms) inside =
          let here = inside (name, raw) (inl refl) in
          (
            (
              raw,
              refl,
              refl,
              refl,
              correlation_hash_unkeyed key raw,
              inl (s, inl refl, here, matched_by_named rules s (name, raw) here, refl, refl, refl),
            ),
            rows ms (λ m h. inside m (inr h)),
          )

  pub sensitive_row-IsSanitized :
      (key : Bytes) (path : Text) (v : Json) (values : List Json)
      → IsSanitized key (v ∷ values) (sensitive_row key path v)
  unfolding sensitive_row mask IsSanitized IsField
  sensitive_row-IsSanitized key path v values = (
    canonical_sensitive v,
    refl,
    refl,
    refl,
    correlation_hash_unkeyed key _,
    inr (v, inl refl, refl, refl, refl, refl, refl),
  )

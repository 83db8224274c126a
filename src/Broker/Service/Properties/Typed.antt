-- ===== src/Broker/Service/Properties/Typed.antt =====
-- The types of the properties that operator_service.py accepts.
use alertmind.Prelude.{
  Bool, true, false, not, ◌&&◌, ◌≡◌, refl, sym, ap, ◌∙◌, List, [], ◌∷◌, some, All, all, length,
  nat_eq, Bool-cases, inl, inr, arith, subst, nat_eq_iff,
}
use alertmind.Text.{Text, text, text_eq}
use alertmind.Text.Laws.{text_eq_refl}
use alertmind.Platform.{Platform, Bytes}
use alertmind.Json.{Json, obj, Fields, end}
use alertmind.Json.Dict.{lookup, get, has, insert, size, lookup-insert}
use alertmind.Json.Parsed.{loads}
use alertmind.Result.{ok, err, after_ok, after_require, ok-injective}
use alertmind.Broker.Recovery.{is_text}
use alertmind.Broker.Service.Properties.{
  is_valid, typed_data, json_codes, lines_of, parse_lines, parse_properties, properties_of,
  unit_properties, service_properties,
}

-- Under the name of a property stands a value of its signature.
pub HasType : Fields → Text × Text → Type 0
HasType values (name, signature) =
    (v : Json) × (lookup name values ≡ some v) × (is_valid v signature ≡ true)

-- No name stands twice.
abbrev is_new : Text → List (Text × Text) → Bool
is_new name properties = all (λ (k, _). not (text_eq k name)) properties

abbrev are_distinct : List (Text × Text) → Bool
are_distinct [] = true
are_distinct ((name, _) ∷ properties) = is_new name properties && are_distinct properties

last : (a b c d e : Bool) → a && b && c && d && e ≡ true → e ≡ true
last a b c d e h = ground arith

typed_data-is_valid :
    (signature : Text) (record' v : Json)
    → typed_data signature record' ≡ ok v
    → is_valid v signature ≡ true
unfolding typed_data
typed_data-is_valid signature (obj fs) v h = after_require _ _ h (λ fits e.
    ap (λ w. is_valid w signature) (sym (ok-injective e))
    ∙ last (nat_eq (size fs) 2) (has (text "type") fs) (has (text "data") fs)
        (is_text (get (text "type") fs) signature) (is_valid (get (text "data") fs) signature) fits)
typed_data-is_valid signature _ v h = absurd (cc)

both : (a b : Bool) → a && b ≡ true → (a ≡ true) × (b ≡ true)
both true b h = (refl, h)
both false b h = absurd (cc)

lookup-insert_other :
    (j k : Text) (v : Json) (fs : Fields)
    → not (text_eq k j) ≡ true
    → lookup j (insert k v fs) ≡ lookup j fs
lookup-insert_other j k v fs h =
    let e = not_true (text_eq k j) h in rw (lookup-insert j k v fs, e) refl
  where
    not_true : (b : Bool) → not b ≡ true → b ≡ false
    not_true true g = absurd (cc)
    not_true false g = refl

module _ ⦃p : Platform⦄ where
  -- What stands there stays under a name that is not among the properties.
  parse_lines-lookup :
      (lines : List Bytes) (properties : List (Text × Text)) (result values : Fields) (name : Text)
      → is_new name properties ≡ true
      → parse_lines lines properties result ≡ ok values
      → lookup name values ≡ lookup name result
  unfolding parse_lines
  parse_lines-lookup [] properties result values name new h =
      ap (lookup name) (sym (ok-injective h))
  parse_lines-lookup (_ ∷ _) [] result values name new h = ap (lookup name) (sym (ok-injective h))
  parse_lines-lookup (line ∷ lines) ((k, signature) ∷ properties) result values name new h =
      let (here, later) = both (not (text_eq k name)) _ new in
      after_ok (loads json_codes (p.parse line)) h (λ record' _ h1.
        after_ok (typed_data signature record') h1 (λ v _ h2.
          parse_lines-lookup lines properties (insert k v result) values name later h2
          ∙ lookup-insert_other name k v result here))

  parse_lines-HasType :
      (lines : List Bytes) (properties : List (Text × Text)) (result values : Fields)
      → length lines ≡ length properties
      → are_distinct properties ≡ true
      → parse_lines lines properties result ≡ ok values
      → All (HasType values) properties
  unfolding parse_lines HasType
  parse_lines-HasType lines [] result values e d h = tt
  parse_lines-HasType [] (_ ∷ _) result values e d h = absurd (cc)
  parse_lines-HasType (line ∷ lines) ((k, signature) ∷ properties) result values e d h =
      let (new, later) = both (is_new k properties) _ d in
      after_ok (loads json_codes (p.parse line)) h (λ record' _ h1.
        after_ok (typed_data signature record') h1 (λ v typed h2. (
          (
            v,
            parse_lines-lookup lines properties (insert k v result) values k new h2
                ∙ (let same = text_eq_refl k in rw (lookup-insert k k v result, same) refl),
            typed_data-is_valid signature record' v typed,
          ),
          parse_lines-HasType lines properties (insert k v result) values (omega (arith, e)) later
              h2,
        )))

  unit_distinct : are_distinct unit_properties ≡ true
  unfolding unit_properties text text_eq
  unit_distinct = refl

  service_distinct : are_distinct service_properties ≡ true
  unfolding service_properties text text_eq
  service_distinct = refl

  distinct_of :
      (group : Text) (properties : List (Text × Text))
      → properties_of group ≡ ok properties
      → are_distinct properties ≡ true
  unfolding properties_of
  distinct_of group properties h = elim (Bool-cases (text_eq group (text "Unit"))) [
    | inl unit ↦
        let e : properties_of group ≡ ok unit_properties = rw (unit, properties_of) refl in
        ap (λ ps. are_distinct ps) (sym (ok-injective (sym e ∙ h))) ∙ unit_distinct
    | inr other ↦ elim (Bool-cases (text_eq group (text "Service"))) [
      | inl service ↦
          let e : properties_of group ≡ ok service_properties =
            rw (other, service, properties_of) refl in
          ap (λ ps. are_distinct ps) (sym (ok-injective (sym e ∙ h))) ∙ service_distinct
      | inr unknown ↦
          let e : properties_of group ≡ err "SERVICE_TARGET" =
            rw (other, unknown, properties_of) refl in
          absurd (cc)
    ]
  ]

  -- A reply that is accepted gives every property of its group a value of the type that the service
  -- manager declares for it.
  pub parse_properties-HasType :
      (raw : Bytes) (group : Text) (values : Fields) (properties : List (Text × Text))
      → properties_of group ≡ ok properties
      → parse_properties raw group ≡ ok values
      → All (HasType values) properties
  unfolding parse_properties
  parse_properties-HasType raw group values properties known h =
      after_ok (properties_of group) h (λ ps e h1. after_require _ _ h1 (λ _ h2.
        after_require _ _ h2 (λ sized h3.
          subst (All (HasType values)) (ok-injective (sym e ∙ known)) (
            parse_lines-HasType (lines_of raw) ps end values ((nat_eq_iff _ _).0 sized)
              (distinct_of group ps e) h3))))

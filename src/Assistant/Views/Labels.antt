-- ===== src/Assistant/Views/Labels.antt =====
-- What the evaluation view of views.py hides from a model, and what it keeps.
use alertmind.Prelude.{
  ◌≡◌, refl, ap, inl, inr, Bool, true, false, ◌||◌, List, [], ◌∷◌, Option, none, some, Bool-cases,
  arith, if◌then◌else◌,
}
use alertmind.Text.{Text, text_eq, is_one_of}
use alertmind.Text.Laws.{text_eq_iff, text_eq_refl}
use alertmind.Platform.{Platform}
use alertmind.Json.{Json, Fields, end, field}
use alertmind.Json.Dict.{erase, insert, lookup, lookup-erase}
use alertmind.Assistant.Views.{
  erase_all, label_keys, is_denied, is_key_shaped, is_label, drop_label_subkeys, drop_label_fields,
  strip_tcodes, strip_fields, to_evaluation_view,
}

erase-insert_same : (k : Text) (v : Json) (fs : Fields) → erase k (insert k v fs) ≡ erase k fs
unfolding erase insert
erase-insert_same k v end = ground (arith, text_eq_refl k)
erase-insert_same k v (field j w fs) = ground (arith, erase-insert_same k v fs)

same_key : (j k : Text) (v : Json) (fs : Fields) → k ≡ j → erase j (insert k v fs) ≡ erase j fs
same_key j k v fs e = rw e (erase-insert_same j v fs)

erase-insert_other :
    (j k : Text) (v : Json) (fs : Fields)
    → text_eq k j ≡ false
    → erase j (insert k v fs) ≡ insert k v (erase j fs)
unfolding erase insert
erase-insert_other j k v end h = ground arith
erase-insert_other j k v (field i w fs) h =
    ground (arith, text_eq_iff i k, text_eq_iff i j, text_eq_iff k j, erase-insert_other j k v fs)

erase_all-insert :
    (ks : List Text) (k : Text) (v : Json) (fs : Fields)
    → is_one_of ks k ≡ true
    → erase_all ks (insert k v fs) ≡ erase_all ks fs
unfolding erase_all
erase_all-insert [] k v fs h = cc
erase_all-insert (j ∷ ks) k v fs h = elim (Bool-cases (text_eq k j)) [
  | inl same ↦ ap (erase_all ks) (same_key j k v fs ((text_eq_iff k j).0 same))
  | inr other ↦
      rw (erase-insert_other j k v fs other) (erase_all-insert ks k v (erase j fs) (ground arith))
]

lookup-erase_all :
    (ks : List Text) (j : Text) (fs : Fields)
    → lookup j (erase_all ks fs) ≡ (if is_one_of ks j then none else lookup j fs)
unfolding erase_all
lookup-erase_all [] j fs = refl
lookup-erase_all (k ∷ ks) j fs = ground (
  arith,
  lookup-erase_all ks j (erase k fs),
  lookup-erase j k fs,
  text_eq_iff k j,
  text_eq_iff j k,
)

-- A change of the value, where there is one.
abbrev pub over : (Json → Json) → Option Json → Option Json
over f none = none
over f (some v) = some (f v)

module _ ⦃p : Platform⦄ where
  twice :
      (b : Bool) (o : Option Json)
      → over strip_tcodes (over drop_label_subkeys (if b then none else o))
        ≡ (if b || false then none else over (λ v. strip_tcodes (drop_label_subkeys v)) o)
  twice true o = refl
  twice false none = refl
  twice false (some v) = refl

  lookup-strip_fields :
      (k : Text) (fs : Fields) → lookup k (strip_fields fs) ≡ over strip_tcodes (lookup k fs)
  unfolding lookup strip_tcodes
  lookup-strip_fields k end = refl
  lookup-strip_fields k (field j v fs) = ground (arith, lookup-strip_fields k fs)

  pub drop_label_fields_field :
      (k : Text) (v : Json) (fs : Fields)
      → drop_label_fields (field k v fs) ≡ (
          if is_label k v
          then drop_label_fields fs
          else field k (drop_label_subkeys v) (drop_label_fields fs))
  unfolding drop_label_subkeys
  drop_label_fields_field k v fs = refl

  same_denied : (j k : Text) → text_eq j k ≡ true → is_denied j ≡ is_denied k
  same_denied j k e = ap is_denied ((text_eq_iff j k).0 e)

  same_shape : (j k : Text) → text_eq j k ≡ true → is_key_shaped j ≡ is_key_shaped k
  same_shape j k e = ap is_key_shaped ((text_eq_iff j k).0 e)

  -- A key that is dropped whatever its value is, one that is kept whatever it is.
  lookup-drop_denied :
      (k : Text) (fs : Fields) → is_denied k ≡ true → lookup k (drop_label_fields fs) ≡ none
  unfolding lookup is_label
  lookup-drop_denied k end h = unfold drop_label_fields in refl
  lookup-drop_denied k (field j v fs) h =
      rw (drop_label_fields_field j v fs)
        (ground (arith, same_denied j k, lookup-drop_denied k fs h))

  lookup-drop_plain :
      (k : Text) (fs : Fields)
      → is_denied k ≡ false
      → is_key_shaped k ≡ false
      → lookup k (drop_label_fields fs) ≡ over drop_label_subkeys (lookup k fs)
  unfolding lookup is_label
  lookup-drop_plain k end h h' = unfold drop_label_fields in refl
  lookup-drop_plain k (field j v fs) h h' =
      rw (drop_label_fields_field j v fs)
        (ground (arith, same_denied j k, same_shape j k, lookup-drop_plain k fs h h'))

  -- Whatever stands under one of the label keys, the evaluation view is the same: the answer of a
  -- model that sees this view cannot depend on it.
  pub to_evaluation_view-insert :
      (k : Text) (v : Json) (fs : Fields)
      → is_one_of label_keys k ≡ true
      → to_evaluation_view (insert k v fs) ≡ to_evaluation_view fs
  unfolding to_evaluation_view
  to_evaluation_view-insert k v fs h =
      ap (λ x. strip_fields (drop_label_fields x)) (erase_all-insert label_keys k v fs h)

  -- The field of the view under a key that is not shaped like a key field: none where the key is one
  -- of the label keys or denied, and otherwise the field of the alert, with its own labels dropped
  -- and its codes stripped, and no other field is lost.
  pub lookup-to_evaluation_view :
      (k : Text) (fs : Fields)
      → is_key_shaped k ≡ false
      → lookup k (to_evaluation_view fs) ≡ (
          if is_one_of label_keys k || is_denied k
          then none
          else over (λ v. strip_tcodes (drop_label_subkeys v)) (lookup k fs))
  unfolding to_evaluation_view
  lookup-to_evaluation_view k fs h = elim (Bool-cases (is_denied k)) [
    | inl denied ↦
        rw
          (
            lookup-strip_fields k (drop_label_fields (erase_all label_keys fs)),
            lookup-drop_denied k (erase_all label_keys fs) denied,
            denied,
          )
          (ground arith)
    | inr allowed ↦
        rw
          (
            lookup-strip_fields k (drop_label_fields (erase_all label_keys fs)),
            lookup-drop_plain k (erase_all label_keys fs) allowed h,
            lookup-erase_all label_keys k fs,
            allowed,
          )
          (twice (is_one_of label_keys k) (lookup k fs))
  ]

-- ===== src/Assistant/Views/Depth.antt =====
-- The label fields of views.py at every depth of an alert.
use alertmind.Prelude.{◌≡◌, refl, ap, inl, inr, Bool, false, ◌||◌, ◌&&◌, Bool-cases, arith}
use alertmind.Text.{Text}
use alertmind.Platform.{Platform}
use alertmind.Json.{
  Json, null, bool, int, float, str, arr, obj, Items, nil, cons, Fields, end, field,
}
use alertmind.Assistant.Views.{
  is_denied, is_key_shaped, looks_like_technique_label, is_label, drop_label_subkeys,
  drop_label_fields, drop_label_items,
}
use alertmind.Assistant.Views.Labels.{drop_label_fields_field}

module _ ⦃p : Platform⦄ where
  -- Some dict of the value, at any depth, has a label field.
  mutual
    pub labelled : Json → Bool
    labelled (obj fs) = labelled_fields fs
    labelled (arr vs) = labelled_items vs
    labelled v = false

    pub labelled_fields : Fields → Bool
    labelled_fields end = false
    labelled_fields (field k v fs) = is_label k v || (labelled v || labelled_fields fs)

    pub labelled_items : Items → Bool
    labelled_items nil = false
    labelled_items (cons v vs) = labelled v || labelled_items vs

  looks_like_technique_label-drop :
      (v : Json) → looks_like_technique_label (drop_label_subkeys v) ≡ looks_like_technique_label v
  unfolding looks_like_technique_label drop_label_subkeys
  looks_like_technique_label-drop (str s) = refl
  looks_like_technique_label-drop (arr vs) = refl
  looks_like_technique_label-drop (obj fs) = refl
  looks_like_technique_label-drop null = refl
  looks_like_technique_label-drop (bool b) = refl
  looks_like_technique_label-drop (int n) = refl
  looks_like_technique_label-drop (float n) = refl

  is_label-drop : (k : Text) (v : Json) → is_label k (drop_label_subkeys v) ≡ is_label k v
  unfolding is_label
  is_label-drop k v =
      ap (λ x. is_denied k || is_key_shaped k && x) (looks_like_technique_label-drop v)

  labelled_fields_field :
      (k : Text) (v : Json) (fs : Fields)
      → labelled_fields (field k v fs) ≡ (is_label k v || (labelled v || labelled_fields fs))
  unfolding labelled
  labelled_fields_field k v fs = refl

  dropped_field :
      (k : Text) (v : Json) (fs : Fields)
      → labelled (drop_label_subkeys v) ≡ false
      → labelled_fields (drop_label_fields fs) ≡ false
      → labelled_fields (drop_label_fields (field k v fs)) ≡ false
  dropped_field k v fs h hs = elim (Bool-cases (is_label k v)) [
    | inl gone ↦ rw (drop_label_fields_field k v fs, gone) hs
    | inr kept ↦
        rw
          (
            drop_label_fields_field k v fs,
            kept,
            labelled_fields_field k (drop_label_subkeys v) (drop_label_fields fs),
            is_label-drop k v,
            kept,
            h,
          )
          hs
  ]

  mutual
    unfolding labelled drop_label_subkeys

    drop_json : (v : Json) → labelled (drop_label_subkeys v) ≡ false
    drop_json (obj fs) = drop_fields fs
    drop_json (arr vs) = drop_items vs
    drop_json (str s) = refl
    drop_json null = refl
    drop_json (bool b) = refl
    drop_json (int n) = refl
    drop_json (float n) = refl

    drop_fields : (fs : Fields) → labelled_fields (drop_label_fields fs) ≡ false
    drop_fields end = refl
    drop_fields (field k v fs) = dropped_field k v fs (drop_json v) (drop_fields fs)

    drop_items : (vs : Items) → labelled_items (drop_label_items vs) ≡ false
    drop_items nil = refl
    drop_items (cons v vs) = ground (arith, drop_json v, drop_items vs)

  -- No label field is left at any depth: none with a denied key, and none with a key shaped like one
  -- and a value with a technique code in it.
  pub labelled-drop_label_subkeys : (v : Json) → labelled (drop_label_subkeys v) ≡ false
  labelled-drop_label_subkeys v = drop_json v

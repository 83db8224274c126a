-- ===== src/Assistant/Injection/Gate.antt =====
-- The delimiter gate of injection.py against the scan and against what an alert holds.
use alertmind.Prelude.{ℕ, suc, ◌≡◌, refl, sym, ◌∙◌, Bool, true, ◌||◌, [], ◌++◌, any, arith}
use alertmind.Text.{Text, text, is_in}
use alertmind.Platform.{Platform}
use alertmind.Dumps.{unicode_style}
use alertmind.Dumps.Mentions.{mentions, mentions_items, mentions_fields, IsPlain, dump-mentions}
use alertmind.Json.{
  Json, null, bool, int, float, str, arr, obj, Items, nil, cons, Fields, end, field,
}
use alertmind.Assistant.Redact.{child_path, item_path}
use alertmind.Assistant.Injection.{
  delim_open, delim_close, key_path, scan_text, walk, walk_fields, walk_items, scan_alert, is_break,
  has_boundary_break, contains_boundary,
}
use alertmind.Assistant.Injection.Delimiter.{holds_delimiter, any-append, or_both, scan_text-holds}

module _ ⦃p : Platform⦄ where
  -- What a value mentions.
  mentions_delimiter : Json → Bool
  mentions_delimiter v = mentions delim_open v || mentions delim_close v

  mutual
    unfolding walk mentions mentions_delimiter holds_delimiter

    walk-mentions :
        (v : Json) (path : Text) → any is_break (walk v path) ≡ true → mentions_delimiter v ≡ true
    walk-mentions (str s) path h = scan_text-holds s path h
    walk-mentions (obj fs) path h = walk_fields-mentions fs path h
    walk-mentions (arr vs) path h = walk_items-mentions vs path 0 h
    walk-mentions null path h = cc
    walk-mentions (bool b) path h = cc
    walk-mentions (int n) path h = cc
    walk-mentions (float n) path h = cc

    walk_fields-mentions :
        (fs : Fields) (path : Text)
        → any is_break (walk_fields fs path) ≡ true
        → (mentions_fields delim_open fs || mentions_fields delim_close fs) ≡ true
    walk_fields-mentions end path h = cc
    walk_fields-mentions (field k v fs) path h =
        let child = child_path path k in
        or_both _ _ (is_in delim_open k) (is_in delim_close k)
          (mentions delim_open v || mentions_fields delim_open fs)
          (mentions delim_close v || mentions_fields delim_close fs)
          (scan_text-holds k (key_path child))
          (λ later.
            or_both _ _ (mentions delim_open v) (mentions delim_close v)
              (mentions_fields delim_open fs) (mentions_fields delim_close fs)
              (walk-mentions v child) (walk_fields-mentions fs path)
              (sym (any-append (walk v child) (walk_fields fs path)) ∙ later))
          (sym (any-append (scan_text k (key_path child)) (walk v child ++ walk_fields fs path))
            ∙ h)

    walk_items-mentions :
        (vs : Items) (path : Text) (i : ℕ)
        → any is_break (walk_items vs path i) ≡ true
        → (mentions_items delim_open vs || mentions_items delim_close vs) ≡ true
    walk_items-mentions nil path i h = cc
    walk_items-mentions (cons v vs) path i h =
        or_both _ _ (mentions delim_open v) (mentions delim_close v) (mentions_items delim_open vs)
          (mentions_items delim_close vs) (walk-mentions v (item_path path i))
          (walk_items-mentions vs path (suc i))
          (sym (any-append (walk v (item_path path i)) (walk_items vs path (suc i))) ∙ h)

  open-IsPlain : IsPlain delim_open
  unfolding delim_open text
  open-IsPlain = (
    refl,
    (refl, (refl, (refl, (refl, (refl, (refl, (refl, (refl, (refl, (refl, (refl, tt))))))))))),
  )

  close-IsPlain : IsPlain delim_close
  unfolding delim_close text
  close-IsPlain = (
    refl,
    (
      refl,
      (refl, (refl, (refl, (refl, (refl, (refl, (refl, (refl, (refl, (refl, (refl, tt))))))))))),
    ),
  )

  -- An alert that holds a delimiter of the prompt in a string or in a key, at any depth, is stopped
  -- at the gate, however its other characters are escaped in print.
  pub contains_boundary-mentions :
      (v : Json)
      → (mentions delim_open v || mentions delim_close v) ≡ true
      → contains_boundary v ≡ true
  unfolding contains_boundary
  contains_boundary-mentions v h = ground (
    arith,
    dump-mentions unicode_style delim_open open-IsPlain 0 v,
    dump-mentions unicode_style delim_close close-IsPlain 0 v,
  )

  -- The gate is at least as strict as the scan: an alert in which the scan reports a delimiter is
  -- stopped.
  pub contains_boundary-scan_alert :
      (v : Json) → has_boundary_break (scan_alert v) ≡ true → contains_boundary v ≡ true
  unfolding has_boundary_break scan_alert
  contains_boundary-scan_alert v h =
      contains_boundary-mentions v (unfold mentions_delimiter in walk-mentions v [] h)

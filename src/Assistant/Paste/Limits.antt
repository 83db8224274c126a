-- ===== src/Assistant/Paste/Limits.antt =====
-- The limits of paste_core.py on the nesting and the size of an alert.
use alertmind.Prelude.{ℕ, suc, ◌+◌, ◌≤◌, ◌≡◌, ◌↔◌, none, some, arith, max, min, ltb, if◌then◌else◌}
use alertmind.Json.{
  Json, null, bool, int, float, str, arr, obj, Items, nil, cons, Fields, end, field,
}
use alertmind.Assistant.Paste.Input.{
  depth, depth_fields, depth_items, nodes, check_limits, max_json_depth, max_json_nodes, too_deep,
  too_many_nodes,
}

-- How deep a value is nested.
mutual
  pub height : Json → ℕ
  height (obj fs) = height_fields fs
  height (arr vs) = height_items vs
  height _ = 0

  pub height_fields : Fields → ℕ
  height_fields end = 0
  height_fields (field k v fs) = max (suc (height v)) (height_fields fs)

  pub height_items : Items → ℕ
  height_items nil = 0
  height_items (cons v vs) = max (suc (height v)) (height_items vs)

atom_depth : (d : ℕ) → d ≤ 21 → d ≡ min 21 (d + 0)
atom_depth d h = omega arith

-- Two parts side by side.
side_by_side :
    (d a b h k : ℕ)
    → a ≡ min 21 (suc d + h)
    → b ≡ min 21 (d + k)
    → max a b ≡ min 21 (d + max (suc h) k)
side_by_side d a b h k e f = omega arith

cut_off :
    (d below h : ℕ)
    → d ≤ 21
    → (d ≤ 20 → below ≡ min 21 (d + h))
    → (if ltb max_json_depth d then d else below) ≡ min 21 (d + h)
cut_off d below h le e = ground arith

mutual
  unfolding depth height

  depth-height : (v : Json) (d : ℕ) → d ≤ 21 → depth v d ≡ min 21 (d + height v)
  depth-height (obj fs) d h =
      cut_off d (depth_fields fs d) (height_fields fs) h (λ le. depth_fields-height fs d le)
  depth-height (arr vs) d h =
      cut_off d (depth_items vs d) (height_items vs) h (λ le. depth_items-height vs d le)
  depth-height null d h = atom_depth d h
  depth-height (bool x) d h = atom_depth d h
  depth-height (int x) d h = atom_depth d h
  depth-height (float x) d h = atom_depth d h
  depth-height (str x) d h = atom_depth d h

  depth_fields-height :
      (fs : Fields) (d : ℕ) → d ≤ 20 → depth_fields fs d ≡ min 21 (d + height_fields fs)
  depth_fields-height end d h = atom_depth d (omega arith)
  depth_fields-height (field k v fs) d h =
      side_by_side d (depth v (suc d)) (depth_fields fs d) (height v) (height_fields fs)
        (depth-height v (suc d) (omega arith)) (depth_fields-height fs d h)

  depth_items-height :
      (vs : Items) (d : ℕ) → d ≤ 20 → depth_items vs d ≡ min 21 (d + height_items vs)
  depth_items-height nil d h = atom_depth d (omega arith)
  depth_items-height (cons v vs) d h =
      side_by_side d (depth v (suc d)) (depth_items vs d) (height v) (height_items vs)
        (depth-height v (suc d) (omega arith)) (depth_items-height vs d h)

-- An alert passes the limits exactly if it is nested at most twenty levels deep and has at most ten
-- thousand nodes, although the measuring stops below the limit.
pub check_limits_iff :
    (fs : Fields) → (check_limits fs ≡ none) ↔ ((height (obj fs) ≤ 20) × (nodes (obj fs) ≤ 10000))
unfolding check_limits
check_limits_iff fs =
    verdict (depth (obj fs) 0) (height (obj fs)) (nodes (obj fs))
      (depth-height (obj fs) 0 (omega arith))
  where
    verdict :
        (d h n : ℕ)
        → d ≡ min 21 (0 + h)
        → ((if ltb max_json_depth d
              then some too_deep
              else (if ltb max_json_nodes n then some too_many_nodes else none))
            ≡ none)
          ↔ ((h ≤ 20) × (n ≤ 10000))
    verdict d h n e = ground arith

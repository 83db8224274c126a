-- ===== src/Json.antt =====
-- JSON values as Python holds them: `dict` in insertion order with `str` keys, `list`, `str`,
-- `int`, `float`, `bool` and `None`. A float is kept by its 64-bit pattern; the code never
-- computes with one. Objects and arrays are lists of their own, in one block with the values.
pub mod Dict
pub mod Equal
pub mod Parsed
use alertmind.Prelude.{
  ℕ, ◌^◌, ℤ, Bool, true, false, not, ◌||◌, List, [], ◌∷◌, is_empty, int_is, nat_eq,
}
use alertmind.Text.{Text}

mutual
  pub data Json : Type 0 where
    null : Json
    bool : Bool → Json
    int : ℤ → Json
    float : ℕ → Json
    str : Text → Json
    arr : Items → Json
    obj : Fields → Json

  pub data Items : Type 0 where
    nil : Items
    cons : Json → Items → Items

  pub data Fields : Type 0 where
    end : Fields
    field : Text → Json → Fields → Fields

abbrev pub items : Items → List Json
items nil = []
items (cons v vs) = v ∷ items vs

abbrev pub of_items : List Json → Items
of_items [] = nil
of_items (v ∷ vs) = cons v (of_items vs)

-- `isinstance(v, dict)` and the like; a `bool` is also an `int` for `isinstance`, not for `type`.
abbrev pub is_dict : Json → Bool
is_dict (obj _) = true
is_dict _ = false

abbrev pub is_list : Json → Bool
is_list (arr _) = true
is_list _ = false

abbrev pub is_str : Json → Bool
is_str (str _) = true
is_str _ = false

abbrev pub is_null : Json → Bool
is_null null = true
is_null _ = false

-- `bool(v)`: both zeros are false, and every other float, NaN too, is true.
unfoldable pub truthy : Json → Bool
truthy null = false
truthy (bool b) = b
truthy (int n) = not (int_is n 0)
truthy (float bits) = not (nat_eq bits 0 || nat_eq bits (2 ^ 63))
truthy (str s) = not (is_empty s)
truthy (arr nil) = false
truthy (arr (cons _ _)) = true
truthy (obj end) = false
truthy (obj (field _ _ _)) = true

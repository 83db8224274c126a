-- ===== src/Json/Equal.antt =====
-- `a == b` of two values that were built in the same way, so that equal dicts hold their fields in
-- the same order and equal numbers are of one type.
use alertmind.Prelude.{ℤ, pos, negsuc, Bool, true, false, not, ◌&&◌, nat_eq}
use alertmind.Text.{text_eq}
use alertmind.Json.{
  Json, null, bool, int, float, str, arr, obj, Items, nil, cons, Fields, end, field,
}

abbrev bool_eq : Bool → Bool → Bool
bool_eq true b = b
bool_eq false b = not b

abbrev int_eq : ℤ → ℤ → Bool
int_eq (pos a) (pos b) = nat_eq a b
int_eq (negsuc a) (negsuc b) = nat_eq a b
int_eq _ _ = false

unfoldable mutual
  unfolding text_eq

  pub json_eq : Json → Json → Bool
  json_eq null null = true
  json_eq (bool a) (bool b) = bool_eq a b
  json_eq (int a) (int b) = int_eq a b
  json_eq (float a) (float b) = nat_eq a b
  json_eq (str a) (str b) = text_eq a b
  json_eq (arr a) (arr b) = items_eq a b
  json_eq (obj a) (obj b) = fields_eq a b
  json_eq _ _ = false

  pub items_eq : Items → Items → Bool
  items_eq nil nil = true
  items_eq (cons a as') (cons b bs) = json_eq a b && items_eq as' bs
  items_eq _ _ = false

  pub fields_eq : Fields → Fields → Bool
  fields_eq end end = true
  fields_eq (field j a fs) (field k b gs) = text_eq j k && (json_eq a b && fields_eq fs gs)
  fields_eq _ _ = false

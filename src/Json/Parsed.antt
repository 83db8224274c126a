-- ===== src/Json/Parsed.antt =====
-- What Python's `json` decoder meets in a text, in the order in which it calls the hooks that the
-- broker modules pass it. `bad` stands where the text stops being JSON (or UTF-8, or is too deep),
-- `constant` for `NaN` and the infinities, `trailing` for a value with more text behind it.
-- An object is its pairs, a key perhaps twice.
use alertmind.Prelude.{ℕ, ℤ, Bool, not, String, Option, none, some, if◌then◌else◌}
use alertmind.Text.{Text, text, text_eq}
use alertmind.Result.{Result, ok, err, ◌>>=◌, ◌>>◌, require}
use alertmind.Json.{Json, Items, Fields}
use alertmind.Json.Dict.{has, insert}

abbrev map_some {ℓ κ} : {A : Type ℓ} {B : Type κ} → (A → B) → Option A → Option B
map_some f none = none
map_some f (some a) = some (f a)

abbrev both_some {ℓ κ μ} :
    {A : Type ℓ} {B : Type κ} {C : Type μ} → (A → B → C) → Option A → Option B → Option C
both_some f none b = none
both_some f (some a) b = map_some (f a) b

mutual
  pub data Parsed : Type 0 where
    bad : Parsed
    trailing : Parsed → Parsed
    constant : Text → Parsed
    null : Parsed
    bool : Bool → Parsed
    int : ℤ → Parsed
    float : ℕ → Parsed
    str : Text → Parsed
    arr : Elems → Parsed
    obj : Pairs → Parsed

  pub data Elems : Type 0 where
    nil : Elems
    cons : Parsed → Elems → Elems

  pub data Pairs : Type 0 where
    end : Pairs
    pair : Text → Parsed → Pairs → Pairs

-- `for key, value in pairs: require(key not in result, code); result[key] = value`
unfoldable pub unique : String → Fields → Fields → Result Fields
unique code result Fields.end = ok result
unique code result (Fields.field k v rest) =
    require (not (has k result)) code >> unique code (insert k v result) rest

-- The codes that a module raises for a repeated key, a constant, and a text that is no JSON.
pub record Codes : Type 0 where
  pub duplicate : String
  pub number : String
  pub syntax : String

-- `json.loads(text, object_pairs_hook=unique, parse_constant=reject_constant)`
unfoldable mutual
  unfolding unique

  pub loads : Codes → Parsed → Result Json
  loads c bad = err c.syntax
  loads c (trailing v) = loads c v >>= λ _. err c.syntax
  loads c (constant _) = err c.number
  loads c null = ok Json.null
  loads c (bool b) = ok (Json.bool b)
  loads c (int n) = ok (Json.int n)
  loads c (float bits) = ok (Json.float bits)
  loads c (str s) = ok (Json.str s)
  loads c (arr vs) = loads_items c vs >>= λ l. ok (Json.arr l)
  loads c (obj ps) =
      loads_pairs c ps >>= λ fs. unique c.duplicate Fields.end fs >>= λ d. ok (Json.obj d)

  pub loads_items : Codes → Elems → Result Items
  loads_items c nil = ok Items.nil
  loads_items c (cons v vs) = loads c v >>= λ x. loads_items c vs >>= λ l. ok (Items.cons x l)

  pub loads_pairs : Codes → Pairs → Result Fields
  loads_pairs c end = ok Fields.end
  loads_pairs c (pair k v ps) =
      loads c v >>= λ x. loads_pairs c ps >>= λ fs. ok (Fields.field k x fs)

-- The 64 bits of `NaN` and of the infinities.
abbrev constant_bits : Text → ℕ
constant_bits c =
    if text_eq c (text "NaN")
    then 0x7FF8000000000000
    else (if text_eq c (text "Infinity") then 0x7FF0000000000000 else 0xFFF0000000000000)

-- `json.loads(text)` without hooks: a key that is there twice keeps its place and its last value.
unfoldable mutual
  pub loads_plain : Parsed → Option Json
  loads_plain bad = none
  loads_plain (trailing _) = none
  loads_plain (constant c) = some (Json.float (constant_bits c))
  loads_plain null = some Json.null
  loads_plain (bool b) = some (Json.bool b)
  loads_plain (int n) = some (Json.int n)
  loads_plain (float bits) = some (Json.float bits)
  loads_plain (str s) = some (Json.str s)
  loads_plain (arr vs) = map_some Json.arr (plain_items vs)
  loads_plain (obj ps) = map_some Json.obj (plain_pairs ps Fields.end)

  pub plain_items : Elems → Option Items
  plain_items nil = some Items.nil
  plain_items (cons v vs) = both_some Items.cons (loads_plain v) (plain_items vs)

  pub plain_pairs : Pairs → Fields → Option Fields
  plain_pairs end result = some result
  plain_pairs (pair k v ps) result = elim (loads_plain v) [
    | none ↦ none
    | some x ↦ plain_pairs ps (insert k x result)
  ]

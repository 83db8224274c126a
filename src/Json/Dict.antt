-- ===== src/Json/Dict.antt =====
-- The `dict` operations: `d.get(k)`, `k in d`, `d[k] = v`, `d.pop(k, None)`, `set(d)`.
use alertmind.Prelude.{
  ℕ, suc, ◌≡◌, refl, Bool, List, [], ◌∷◌, Option, none, some, arith, is_some, if◌then◌else◌,
}
use alertmind.Text.{Text, text_eq}
use alertmind.Text.Laws.{text_eq_iff}
use alertmind.Json.{Json, null, Fields, end, field}

-- `d[k]` where there, the first of a key; a real dict has no other.
unfoldable pub lookup : Text → Fields → Option Json
lookup k end = none
lookup k (field j v fs) = if text_eq j k then some v else lookup k fs

abbrev pub or_null : Option Json → Json
or_null none = null
or_null (some v) = v

-- `d.get(k)`
abbrev pub get : Text → Fields → Json
get k fs = or_null (lookup k fs)

-- `k in d`
abbrev pub has : Text → Fields → Bool
has k fs = is_some (lookup k fs)

-- `d[k] = v`: in place where the key is there, at the end otherwise
unfoldable pub insert : Text → Json → Fields → Fields
insert k v end = field k v end
insert k v (field j w fs) = if text_eq j k then field j v fs else field j w (insert k v fs)

-- `d.pop(k, None)`
unfoldable pub erase : Text → Fields → Fields
erase k end = end
erase k (field j w fs) = let rest = erase k fs in if text_eq j k then rest else field j w rest

abbrev pub keys : Fields → List Text
keys end = []
keys (field k v fs) = k ∷ keys fs

abbrev pub values : Fields → List Json
values end = []
values (field k v fs) = v ∷ values fs

abbrev pub size : Fields → ℕ
size end = 0
size (field k v fs) = suc (size fs)

pub lookup-insert :
    (j k : Text) (v : Json) (fs : Fields)
    → lookup j (insert k v fs) ≡ (if text_eq k j then some v else lookup j fs)
unfolding lookup insert
lookup-insert j k v end = refl
lookup-insert j k v (field i w fs) =
    ground (arith, text_eq_iff i k, text_eq_iff i j, text_eq_iff k j, lookup-insert j k v fs)

pub lookup-erase :
    (j k : Text) (fs : Fields) → lookup j (erase k fs) ≡ (if text_eq k j then none else lookup j fs)
unfolding lookup erase
lookup-erase j k end = ground arith
lookup-erase j k (field i w fs) =
    ground (arith, text_eq_iff i k, text_eq_iff i j, text_eq_iff k j, lookup-erase j k fs)

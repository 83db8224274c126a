-- ===== src/Result.antt =====
-- A call that may raise one of the fixed diagnostic codes of the program (`OperatorError`,
-- `InventoryError`, `ValueError`), and `require`, by which the broker modules raise theirs.
use alertmind.Prelude.{◌≡◌, refl, Bool, true, false, String, List, [], ◌∷◌}

pub data Result {ℓ} (A : Type ℓ) : Type ℓ where
  ok : A → Result A
  err : String → Result A

-- `require(condition, code)`
unfoldable pub require : Bool → String → Result (Unit {0})
require true code = ok tt
require false code = err code

-- What comes behind a call runs unless the call raised.
infixl 5 ◌>>=◌ ◌>>◌
abbrev pub ◌>>=◌ {ℓ κ} : {In : Type ℓ} {Out : Type κ} → Result In → (In → Result Out) → Result Out
ok value >>= next = next value
err code >>= next = err code

abbrev pub ◌>>◌ {ℓ} : {Out : Type ℓ} → Result (Unit {0}) → Result Out → Result Out
call >> rest = call >>= λ _. rest

-- A `require` in front of a successful chain held.
pub require_then {ℓ} :
    {B : Type ℓ} (b : Bool) (code : String) (k : Result B) {r : B}
    → (require b code >> k) ≡ ok r
    → (b ≡ true) × (k ≡ ok r)
unfolding require
require_then true code k h = (refl, h)
require_then false code k h = cc

-- A loop of steps that may raise, in order.
unfoldable pub for_each {ℓ} : {A : Type ℓ} → List A → (A → Result (Unit {0})) → Result (Unit {0})
for_each [] f = ok tt
for_each (x ∷ xs) f = f x >> for_each xs f

pub ok-injective {ℓ} : {A : Type ℓ} {a b : A} → ok a ≡ ok b → a ≡ b
ok-injective h = cc

-- The same, for a proof that goes on under the values that the chain passed through.
pub after_ok {ℓ κ μ} :
    {A : Type ℓ} {B : Type κ} {P : Type μ} (m : Result A) {f : A → Result B} {b : B}
    → (m >>= f) ≡ ok b
    → ((a : A) → m ≡ ok a → f a ≡ ok b → P)
    → P
after_ok (ok a) h k = k a refl h
after_ok (err code) h k = absurd (cc)

pub after_require {ℓ μ} :
    {B : Type ℓ} {P : Type μ} (b : Bool) (code : String) {r : Result B} {x : B}
    → (require b code >> r) ≡ ok x
    → (b ≡ true → r ≡ ok x → P)
    → P
unfolding require
after_require true code h k = k refl h
after_require false code h k = absurd (cc)

-- ===== src/Broker/Os/After.antt =====
-- What a run went through that came to its end, for a proof that goes on under its values.
use alertmind.Prelude.{ℕ, ◌≡◌, refl, Bool, true, false, String, List, ◌∷◌}
use alertmind.Result.{Result, ok, err, require}
use alertmind.Broker.Os.{
  Call, Ran, value, threw, Io, continue, ◌>>=◌, ◌>>◌, demand, lift, closing, with_opened,
}

-- A run that came to its end passed through its first part.
pub after_value {ℓ κ μ} :
    {A : Type ℓ} {B : Type κ} {P : Type μ} (m : Io A) (f : A → Io B) {b : B} (log : List Call)
    → ((m >>= f) log).0 ≡ value b
    → ((a : A) (log' : List Call) → (f a log').0 ≡ value b → P)
    → P
after_value {A = A} {P = P} m f {b = b} log h k = through (m log) h
  where
    through : (out : Ran A × List Call) → (continue f out).0 ≡ value b → P
    through (value a, log') e = k a log' e
    through (threw x, log') e = absurd (cc)

pub after_demand {ℓ μ} :
    {B : Type ℓ} {P : Type μ} (t : Bool) (code : String) (rest : Io B) {b : B} (log : List Call)
    → ((demand t code >> rest) log).0 ≡ value b
    → (t ≡ true → (rest log).0 ≡ value b → P)
    → P
unfolding demand
after_demand true code rest log h k = k refl h
after_demand false code rest log h k = absurd (cc)

pub after_lift {ℓ μ} :
    {B : Type ℓ} {P : Type μ} (t : Bool) (code : String) (rest : Io B) {b : B} (log : List Call)
    → ((lift (require t code) >> rest) log).0 ≡ value b
    → (t ≡ true → (rest log).0 ≡ value b → P)
    → P
unfolding lift require
after_lift true code rest log h k = k refl h
after_lift false code rest log h k = absurd (cc)

pub after_opened {ℓ μ} :
    {A : Type ℓ} {P : Type μ} (event : ℕ → Call) (failed : Call) (o : Ran ℕ) (block : ℕ → Io A)
    {b : A} (log : List Call)
    → (with_opened event failed o block log).0 ≡ value b
    → ((fd : ℕ) (log' : List Call) → (block fd log').0 ≡ value b → P)
    → P
unfolding closing
after_opened event failed (value fd) block log h k = k fd (event fd ∷ log) h
after_opened event failed (threw e) block log h k = absurd (cc)

pub value-injective : {A : Type 0} {a b : A} → value a ≡ value b → a ≡ b
value-injective h = cc

pub after_computed {ℓ κ μ} :
    {A : Type ℓ} {B : Type κ} {P : Type μ} (m : Result A) (f : A → Io B) {b : B} (log : List Call)
    → ((lift m >>= f) log).0 ≡ value b
    → ((a : A) → m ≡ ok a → (f a log).0 ≡ value b → P)
    → P
unfolding lift
after_computed (ok a) f log h k = k a refl h
after_computed (err code) f log h k = absurd (cc)

-- The first part of a run that came to its end came to its end.
pub first_value {ℓ κ} :
    {A : Type ℓ} {B : Type κ} (m : Io A) (f : A → Io B) {b : B} (log : List Call)
    → ((m >>= f) log).0 ≡ value b
    → (a : A) × ((m log).0 ≡ value a)
first_value {A = A} m f {b = b} log h = through (m log) h
  where
    through : (out : Ran A × List Call) → (continue f out).0 ≡ value b → (a : A) × (out.0 ≡ value a)
    through (value a, log') e = (a, refl)
    through (threw x, log') e = absurd (cc)

pub demanded :
    (t : Bool) (code : String) {u : Unit {0}} (log : List Call)
    → (demand t code log).0 ≡ value u
    → t ≡ true
unfolding demand
demanded true code log h = refl
demanded false code log h = absurd (cc)

-- The same, with the exact log behind the first part.
pub after_run {ℓ κ μ} :
    {A : Type ℓ} {B : Type κ} {P : Type μ} (m : Io A) (f : A → Io B) {b : B} (log : List Call)
    → ((m >>= f) log).0 ≡ value b
    → ((a : A) → (m log).0 ≡ value a → (f a (m log).1).0 ≡ value b → P)
    → P
after_run {A = A} {P = P} m f {b = b} log h k = through (m log) h k
  where
    through :
        (out : Ran A × List Call)
        → (continue f out).0 ≡ value b
        → ((a : A) → out.0 ≡ value a → (f a out.1).0 ≡ value b → P)
        → P
    through (value a, log') e k' = k' a refl e
    through (threw x, log') e k' = absurd (cc)

pub after_open {ℓ μ} :
    {A : Type ℓ} {P : Type μ} (event : ℕ → Call) (failed : Call) (o : Ran ℕ) (block : ℕ → Io A)
    {b : A} (log : List Call)
    → (with_opened event failed o block log).0 ≡ value b
    → ((fd : ℕ) → o ≡ value fd → (block fd (event fd ∷ log)).0 ≡ value b → P)
    → P
unfolding closing
after_open event failed (value fd) block log h k = k fd refl h
after_open event failed (threw e) block log h k = absurd (cc)

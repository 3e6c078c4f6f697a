-- ===== src/Base/Results.antt =====
-- Go's `(value, error)` results.
use mathlib.Core.Path.{◌≡◌, refl, ap}

pub data Result {ℓ κ} (E : Type ℓ) (A : Type κ) : Type (ℓ ⊔ κ) where
  ok : A → Result E A
  err : E → Result E A

infixl 5 ◌>>=◌ ◌>>◌
abbrev pub ◌>>=◌ {ℓ κ μ} :
    {E : Type ℓ} {A : Type κ} {B : Type μ} → Result E A → (A → Result E B) → Result E B
ok a >>= f = f a
err e >>= f = err e

abbrev pub ◌>>◌ {ℓ μ} : {E : Type ℓ} {B : Type μ} → Result E (Unit {0}) → Result E B → Result E B
m >> k = m >>= λ _. k

-- A chain that succeeds passes its first step.
pub >>=-eq-ok {ℓ κ μ} :
    {E : Type ℓ} {X : Type κ} {Y : Type μ} (first : Result E X) (next : X → Result E Y) {y : Y}
    → (first >>= next) ≡ ok y
    → (x : X) × (first ≡ ok x) × (next x ≡ ok y)
>>=-eq-ok (err e) next done = cc
>>=-eq-ok (ok x) next done = (x, refl, done)

ok_value {ℓ κ} : {E : Type ℓ} {A : Type κ} → A → Result E A → A
ok_value a (ok b) = b
ok_value a (err e) = a

pub ok-injective {ℓ κ} :
    {E : Type ℓ} {A : Type κ} {a b : A} → ◌≡◌ {A = Result E A} (ok a) (ok b) → a ≡ b
unfolding ok_value
ok-injective {a = a} h = ap (ok_value a) h

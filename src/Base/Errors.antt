-- ===== src/Base/Errors.antt =====
-- A value or an error: a Python function that may raise.
use mathlib.Core.Path.{◌≡◌, refl}
use mathlib.Core.Bool.{Bool}
use mathlib.Core.Logic.{◌⊎◌, inl, inr}
use veillee.Base.Tests.{if◌then◌else◌}

pub data Outcome {ℓ κ} (E : Type ℓ) (A : Type κ) : Type (ℓ ⊔ κ) where
  err : E → Outcome E A
  ok : A → Outcome E A

-- What follows a call that returns.
abbrev pub ◌>>=◌ {ℓ κ μ} :
    {E : Type ℓ} {A : Type κ} {B : Type μ} → Outcome E A → (A → Outcome E B) → Outcome E B
err error >>= next = err error
ok value >>= next = next value

-- `if not test: raise error`
abbrev pub require {ℓ} : {E : Type ℓ} → Bool → E → Outcome E (Unit {0})
require test e = if test then ok tt else err e

abbrev pub ◌>>◌ {ℓ κ} : {E : Type ℓ} {B : Type κ} → Outcome E (Unit {0}) → Outcome E B → Outcome E B
check >> rest = check >>= λ _. rest

infixl 5 ◌>>◌ ◌>>=◌
-- Where a chain returns, its first call does, and the rest returns from there.
pub >>=-eq-ok {ℓ κ μ} :
    {E : Type ℓ} {A : Type κ} {B : Type μ} (call : Outcome E A) (next : A → Outcome E B) {y : B}
    → (call >>= next) ≡ ok y
    → (value : A) × (call ≡ ok value) × (next value ≡ ok y)
>>=-eq-ok (err error) next raised = cc
>>=-eq-ok (ok value) next returned = (value, refl, returned)

pub Outcome-cases {ℓ κ} :
    {E : Type ℓ} {A : Type κ} (m : Outcome E A) → ((a : A) × (m ≡ ok a)) ⊎ ((e : E) × (m ≡ err e))
Outcome-cases (ok a) = inl (a, refl)
Outcome-cases (err e) = inr (e, refl)

pub ok_injective {ℓ κ} :
    {E : Type ℓ} {A : Type κ} {a b : A} → ◌≡◌ {A = Outcome E A} (ok a) (ok b) → a ≡ b
ok_injective h = cc h

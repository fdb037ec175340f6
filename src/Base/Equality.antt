-- ===== src/Base/Equality.antt =====
-- Decidable equality as an instance, as the source's `==` has it for every type it compares.
use Prim.Native.Nat.{ℕ}
use mathlib.Core.Path.{◌≡◌, refl}
use mathlib.Core.Logic.{◌↔◌, ◌≢◌}
use mathlib.Core.Bool.{Bool, true, false, ◌&&◌, ◌||◌}
use mathlib.Core.List.{List, [], ◌∷◌, ◌++◌}
use native.Mathlib.Omega.{arith}
use veillee.Base.Tests.{eqb, eqb_iff}

pub record Eq {κ} (T : Type κ) : Type κ where
  pub same : T → T → Bool
  pub same_iff : (x y : T) → (same x y ≡ true) ↔ (x ≡ y)

-- The source's `==`, at the type that the instance is for.
abbrev pub ◌==◌ {κ} : {T : Type κ} ⦃equality : Eq T⦄ → T → T → Bool
◌==◌ ⦃equality⦄ = equality.same

infix 50 ◌==◌
pub ==_iff {ℓ} : {A : Type ℓ} ⦃e : Eq A⦄ (a b : A) → ((a == b) ≡ true) ↔ (a ≡ b)
==_iff ⦃e⦄ a b = e.same_iff a b

pub ==_refl {ℓ} : {A : Type ℓ} ⦃e : Eq A⦄ (a : A) → (a == a) ≡ true
==_refl ⦃e⦄ a = (e.same_iff a a).1 refl

-- Two values that the test tells apart are different: for literals, by evaluation.
pub ne_of_beq {ℓ} : {A : Type ℓ} ⦃e : Eq A⦄ (a b : A) → (a == b) ≡ false → a ≢ b
ne_of_beq ⦃e⦄ a b h p = ground (arith, (e.same_iff a b).1 p)

pub beq_of_ne {ℓ} : {A : Type ℓ} ⦃e : Eq A⦄ (a b : A) → a ≢ b → (a == b) ≡ false
beq_of_ne ⦃e⦄ a b h = ground (arith, e.same_iff a b)

instance abbrev pub nat_eq : Eq ℕ
nat_eq = record { same = eqb; same_iff = eqb_iff }

module _ {ℓ} {A : Type ℓ} ⦃e : Eq A⦄ where
  unfoldable pub list_beq : List A → List A → Bool
  list_beq [] [] = true
  list_beq (x ∷ xs) (y ∷ ys) = x == y && list_beq xs ys
  list_beq _ _ = false

  pub list_beq_iff : (xs ys : List A) → (list_beq xs ys ≡ true) ↔ (xs ≡ ys)
  unfolding list_beq
  list_beq_iff [] [] = (λ h. refl, λ h. refl)
  list_beq_iff [] (y ∷ ys) = (λ h. cc, λ h. cc)
  list_beq_iff (x ∷ xs) [] = (λ h. cc, λ h. cc)
  list_beq_iff (x ∷ xs) (y ∷ ys) = (
    λ h. ground (arith, e.same_iff x y, list_beq_iff xs ys),
    λ h. ground (arith, e.same_iff x y, list_beq_iff xs ys),
  )

  instance abbrev pub list_eq : Eq (List A)
  list_eq = record { same = list_beq; same_iff = list_beq_iff }

  -- x in xs
  abbrev pub contains : List A → A → Bool
  contains [] a = false
  contains (x ∷ xs) a = x == a || contains xs a

  -- No element stands twice.
  abbrev pub Distinct : List A → Type 0
  Distinct [] = Unit
  Distinct (x ∷ xs) = (contains xs x ≡ false) × Distinct xs

  pub contains-append :
      (xs ys : List A) (a : A) → contains (xs ++ ys) a ≡ (contains xs a || contains ys a)
  contains-append [] ys a = refl
  contains-append (x ∷ xs) ys a = ground (arith, contains-append xs ys a)

  pub Distinct-append_one :
      (xs : List A) (a : A) → contains xs a ≡ false → Distinct xs → Distinct (xs ++ (a ∷ []))
  Distinct-append_one [] a fresh d = (refl, tt)
  Distinct-append_one (x ∷ xs) a fresh (h, d) = (
    ground (arith, contains-append xs (a ∷ []) x, e.same_iff x a, e.same_iff a x),
    Distinct-append_one xs a (ground arith) d,
  )

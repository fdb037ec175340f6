-- ===== src/Base/Sort.antt =====
-- `sorted`, a stable insertion sort, and the orders of texts and of lists of texts.
use mathlib.Core.Bool.{Bool, true, false}
use mathlib.Core.List.{List, [], ◌∷◌}
use veillee.Base.Tests.{if◌then◌else◌, ltb}
use veillee.Base.Equality.{Eq, ◌==◌, nat_eq, list_eq}
use veillee.Base.Text.{Text}

-- The lexicographic order that comes with `before` on the elements.
unfoldable pub lexicographic {ℓ} : {A : Type ℓ} ⦃e : Eq A⦄ → (A → A → Bool) → List A → List A → Bool
lexicographic before [] ys = true
lexicographic before (x ∷ xs) [] = false
lexicographic before (x ∷ xs) (y ∷ ys) =
    let rest = lexicographic before xs ys in if x == y then rest else before x y

abbrev pub text_le : Text → Text → Bool
text_le s t = lexicographic ltb s t

abbrev pub path_le : List Text → List Text → Bool
path_le p q = lexicographic text_le p q

module _ {ℓ} {A : Type ℓ} (le : A → A → Bool) where
  unfoldable pub insert_by : A → List A → List A
  insert_by x [] = x ∷ []
  insert_by x (y ∷ ys) = let rest = insert_by x ys in if le x y then x ∷ y ∷ ys else y ∷ rest

  unfoldable pub sort_by : List A → List A
  unfolding insert_by
  sort_by [] = []
  sort_by (x ∷ xs) = insert_by x (sort_by xs)

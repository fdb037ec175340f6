-- ===== src/Base/Strip.antt =====
-- Laws of `str.strip`.
use mathlib.Core.Path.{◌≡◌, refl}
use mathlib.Core.Bool.{Bool, true}
use mathlib.Core.List.{[], ◌∷◌, ◌++◌}
use native.Mathlib.Omega.{arith}
use Prim.Native.Nat.{ℕ}
use veillee.Base.Text.{Text, strip, strip_left, strip_right}

module _ (p : ℕ → Bool) where
  strip_left_idem : (s : Text) → strip_left p (strip_left p s) ≡ strip_left p s
  unfolding strip_left
  strip_left_idem [] = refl
  strip_left_idem (c ∷ s) = ground (arith, strip_left_idem s)

  strip_right_idem : (s : Text) → strip_right p (strip_right p s) ≡ strip_right p s
  unfolding strip_right
  strip_right_idem [] = refl
  strip_right_idem (c ∷ s) = ground (arith, strip_right_idem s)

  strip_right-strip_left :
      (s : Text) → strip_right p (strip_left p s) ≡ strip_left p (strip_right p s)
  unfolding strip_right strip_left
  strip_right-strip_left [] = refl
  strip_right-strip_left (c ∷ s) = ground (arith, strip_right-strip_left s)

  pub strip_right-strip : (s : Text) → strip_right p (strip p s) ≡ strip p s
  unfolding strip
  strip_right-strip s = rw (strip_right-strip_left (strip_right p s), strip_right_idem s)

  pub strip_left-strip : (s : Text) → strip_left p (strip p s) ≡ strip p s
  unfolding strip
  strip_left-strip s = strip_left_idem (strip_right p s)

  pub strip_idem : (s : Text) → strip p (strip p s) ≡ strip p s
  unfolding strip
  strip_idem s = rw (strip_right-strip s, strip_left-strip s)

  strip_right-append_one :
      (s : Text) (c : ℕ) → p c ≡ true → strip_right p (s ++ (c ∷ [])) ≡ strip_right p s
  unfolding strip_right
  strip_right-append_one [] c h = ground arith
  strip_right-append_one (d ∷ s) c h = ground (arith, strip_right-append_one s c h)

  -- What passes in front and behind does not change what is left.
  pub strip-cons : (c : ℕ) (s : Text) → p c ≡ true → strip p (c ∷ s) ≡ strip p s
  unfolding strip strip_left strip_right
  strip-cons c s h = ground arith

  pub strip-append_one : (s : Text) (c : ℕ) → p c ≡ true → strip p (s ++ (c ∷ [])) ≡ strip p s
  unfolding strip
  strip-append_one s c h = rw (strip_right-append_one s c h)

-- ===== src/Base/Decimal.antt =====
-- Decimal numerals: `str(n)`, the padding of a format such as `{n:03d}`, and `int(text)`.
use Prim.Native.Nat.{ℕ, zero, suc, ◌+◌, ◌-◌, ◌*◌, ◌/◌, ◌%◌, ◌≤◌, ◌<◌, ◌^◌}
use native.Mathlib.Nat.{pow-suc}
use mathlib.Core.Path.{◌≡◌, refl, ◌∙◌}
use mathlib.Core.Bool.{true}
use mathlib.Core.List.{[], ◌∷◌, ◌++◌}
use native.Mathlib.Omega.{arith}
use veillee.Base.Tests.{if◌then◌else◌, ltb}
use veillee.Base.Lists.{length, replicate, all, all-append, length-append, length-replicate}
use veillee.Base.Text.{Text, is_digit}

-- The digits of `n` before `acc`, with fuel: `decimal` gives more than there are digits.
unfoldable pub decimal_from : ℕ → ℕ → Text → Text
decimal_from zero n acc = acc
decimal_from (suc fuel) n acc =
    let digits = (b'0' + n % 10) ∷ acc in
    let rest = decimal_from fuel (n / 10) digits in if ltb n 10 then digits else rest

unfoldable pub decimal : ℕ → Text
unfolding decimal_from
decimal n = decimal_from (suc n) n []

-- f"{n:0{width}d}"
unfoldable pub pad : ℕ → ℕ → Text
pad width n = let digits = decimal n in replicate (width - length digits) b'0' ++ digits

-- The value of digits that follow a number.
unfoldable pub value_from : ℕ → Text → ℕ
value_from acc [] = acc
value_from acc (c ∷ s) = value_from (acc * 10 + (c - b'0')) s

value_from-decimal_from :
    (fuel n : ℕ) (acc : Text) → n < fuel → value_from 0 (decimal_from fuel n acc) ≡ value_from n acc
unfolding decimal_from value_from
value_from-decimal_from zero n acc h = absurd (omega arith)
value_from-decimal_from (suc fuel) n acc h =
    ground (arith, small, large, value_from-decimal_from fuel (n / 10) ((b'0' + n % 10) ∷ acc))
  where
    small : n < 10 → 0 * 10 + (b'0' + n % 10 - b'0') ≡ n
    small k = omega arith

    large : n / 10 * 10 + (b'0' + n % 10 - b'0') ≡ n
    large = omega arith

value_from-zeros : (k : ℕ) (s : Text) → value_from 0 (replicate k b'0' ++ s) ≡ value_from 0 s
unfolding value_from
value_from-zeros zero s = refl
value_from-zeros (suc k) s = value_from-zeros k s

-- Reading a padded numeral gives the number back.
pub value_from-pad : (width n : ℕ) → value_from 0 (pad width n) ≡ n
unfolding pad decimal
value_from-pad width n =
    value_from-zeros (width - length (decimal n)) (decimal n)
    ∙ value_from-decimal_from (suc n) n [] (omega arith)
    ∙ unfold value_from in refl

all-decimal_from :
    (fuel n : ℕ) (acc : Text)
    → all is_digit acc ≡ true
    → all is_digit (decimal_from fuel n acc) ≡ true
unfolding decimal_from
all-decimal_from zero n acc h = h
all-decimal_from (suc fuel) n acc h =
    ground (arith, digit, all-decimal_from fuel (n / 10) ((b'0' + n % 10) ∷ acc))
  where
    digit : is_digit (b'0' + n % 10) ≡ true
    digit = ground arith

all-zeros : (k : ℕ) → all is_digit (replicate k b'0') ≡ true
all-zeros zero = refl
all-zeros (suc k) = all-zeros k

pub all-pad : (width n : ℕ) → all is_digit (pad width n) ≡ true
unfolding pad decimal
all-pad width n =
    rw (all-append, all-zeros (width - length (decimal n))) (all-decimal_from (suc n) n [] refl)

pub length-pad-ge : (width n : ℕ) → width ≤ length (pad width n)
unfolding pad
length-pad-ge width n = rw (length-append, length-replicate) (omega arith)

length-decimal_from :
    (fuel k n : ℕ) (acc : Text)
    → n < 10 ^ suc k
    → n < fuel
    → length (decimal_from fuel n acc) ≤ suc k + length acc
unfolding decimal_from
length-decimal_from zero k n acc h f = absurd (omega arith)
length-decimal_from (suc fuel) zero n acc h f = ground arith
length-decimal_from (suc fuel) (suc k) n acc h f =
    ground (arith, length-decimal_from fuel k (n / 10) ((b'0' + n % 10) ∷ acc), smaller)
  where
    smaller : n / 10 < 10 ^ suc k
    smaller = let bound : n < 10 ^ suc k * 10 = rw pow-suc at h in omega arith

-- A number of at most `width` digits is padded to exactly `width`.
pub length-pad : (width n : ℕ) → n < 10 ^ suc width → length (pad (suc width) n) ≡ suc width
unfolding pad decimal
length-pad width n h =
    rw (length-append, length-replicate)
      (omega (arith, length-decimal_from (suc n) width n [] h (omega arith)))

-- ===== src/Uploads/Order.antt =====
-- The order in which chunks are put together.
use veillee.Base.{
  ℕ, ◌+◌, ◌-◌, ◌*◌, ◌^◌, ◌<◌, ◌≡◌, refl, sym, ◌∙◌, true, [], ◌∷◌, ◌++◌, leb, length, all, ◌==◌,
  ==_iff, ==_refl, nat_eq, list_eq, arith, and_both, Bool-cases, inl, inr, subst,
}
use veillee.Base.Text.{Text, codes, is_digit}
use veillee.Base.Sort.{text_le, lexicographic}
use veillee.Base.Decimal.{pad, value_from, value_from-pad, all-pad, length-pad}
use veillee.Uploads.{chunk_name}

value_from-increases :
    (s t : Text) (a b : ℕ)
    → length s ≡ length t
    → all is_digit s ≡ true
    → all is_digit t ≡ true
    → a < b
    → value_from a s < value_from b t
unfolding value_from
value_from-increases [] [] a b same h k less = less
value_from-increases [] (d ∷ t) a b same h k less = absurd (omega (arith, same))
value_from-increases (c ∷ s) [] a b same h k less = absurd (omega (arith, same))
value_from-increases (c ∷ s) (d ∷ t) a b same h k less =
    let (digit, digits) = and_both (is_digit c) (all is_digit s) h in
    let (digit', digits') = and_both (is_digit d) (all is_digit t) k in
    value_from-increases s t (a * 10 + (c - b'0')) (b * 10 + (d - b'0')) (omega (arith, same))
      digits digits' (ground arith)

text_le_refl : (u : Text) → text_le u u ≡ true
unfolding lexicographic
text_le_refl [] = refl
text_le_refl (c ∷ u) = rw (==_refl c) (text_le_refl u)

text_le-digits :
    (s t u : Text) (a : ℕ)
    → length s ≡ length t
    → all is_digit s ≡ true
    → all is_digit t ≡ true
    → text_le (s ++ u) (t ++ u) ≡ leb (value_from a s) (value_from a t)
unfolding value_from lexicographic
text_le-digits [] [] u a same h k = text_le_refl u ∙ ground arith
text_le-digits [] (d ∷ t) u a same h k = absurd (omega (arith, same))
text_le-digits (c ∷ s) [] u a same h k = absurd (omega (arith, same))
text_le-digits (c ∷ s) (d ∷ t) u a same h k =
    let (digit, digits) = and_both (is_digit c) (all is_digit s) h in
    let (digit', digits') = and_both (is_digit d) (all is_digit t) k in
    let shorter : length s ≡ length t = omega (arith, same) in
    let below =
      value_from-increases s t (a * 10 + (c - b'0')) (a * 10 + (d - b'0')) shorter digits digits' in
    let above =
      value_from-increases t s (a * 10 + (d - b'0')) (a * 10 + (c - b'0')) (sym shorter) digits'
        digits in
    elim (Bool-cases (c == d)) [
      | inl e ↦
          let equal : c ≡ d = (==_iff c d).0 e in
          rw e (
            subst
              (λ x.
                text_le (s ++ u) (t ++ u)
                ≡ leb (value_from (a * 10 + (c - b'0')) s) (value_from (a * 10 + (x - b'0')) t))
              equal (text_le-digits s t u (a * 10 + (c - b'0')) shorter digits digits'))
      | inr n ↦ rw n (ground (arith, below, above, ==_iff c d))
    ]

-- Up to 99999 the names of the chunks sort as their numbers do.
pub chunk_name-order :
    (m n : ℕ) → m < 10 ^ 5 → n < 10 ^ 5 → text_le (chunk_name m) (chunk_name n) ≡ leb m n
unfolding chunk_name
chunk_name-order m n h k =
    text_le-digits (pad 5 m) (pad 5 n) (codes ".part") 0 (length-pad 4 m h ∙ sym (length-pad 4 n k))
      (all-pad 5 m) (all-pad 5 n)
    ∙ rw (value_from-pad 5 m, value_from-pad 5 n) refl

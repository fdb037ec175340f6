-- ===== src/Frontmatter/Lines.antt =====
-- `split_lines`, and the search for the closing delimiter.
use veillee.Base.{
  ℕ, ◌+◌, ◌≡◌, refl, Bool, true, false, some, List, [], ◌∷◌, ◌++◌, length, concat, any, nat_eq,
  list_eq, length-append, arith,
}
use veillee.Base.Text.{Text, is_newline}
use veillee.Frontmatter.{
  is_boundary, ends_line, add_line, split_lines, is_delimiter_line, closing_from,
}

unfoldable pub ends_with_newline : Text → Bool
ends_with_newline [] = false
ends_with_newline (c ∷ []) = is_newline c
ends_with_newline (c ∷ d ∷ s) = ends_with_newline (d ∷ s)

add_line-append :
    (b : Bool) (c : ℕ) (l : Text) (ls lines : List Text)
    → add_line b c ((l ∷ ls) ++ lines) ≡ add_line b c (l ∷ ls) ++ lines
add_line-append true c l ls lines = refl
add_line-append false c l ls lines = refl

add_line-cons :
    (b : Bool) (c : ℕ) (lines : List Text)
    → (l : Text) × (ls : List Text) × (add_line b c lines ≡ l ∷ ls)
add_line-cons true c lines = (c ∷ [], lines, refl)
add_line-cons false c [] = (c ∷ [], [], refl)
add_line-cons false c (m ∷ ms) = (c ∷ m, ms, refl)

pub split_lines-step :
    (c : ℕ) (s : Text) → split_lines (c ∷ s) ≡ add_line (ends_line c s) c (split_lines s)
unfolding split_lines
split_lines-step c s = refl

-- After a newline a line ends, whatever follows.
ends_line-newline : (c : ℕ) (s : Text) → is_newline c ≡ true → ends_line c s ≡ true
unfolding ends_line is_boundary
ends_line-newline c s h = ground arith

ends_line-cons : (c d : ℕ) (s t : Text) → ends_line c (d ∷ (s ++ t)) ≡ ends_line c (d ∷ s)
unfolding ends_line
ends_line-cons c d s t = refl

split_lines-empty : split_lines [] ≡ []
unfolding split_lines
split_lines-empty = refl

-- A text that ends a line splits on its own.
pub split_lines-append :
    (s t : Text)
    → ends_with_newline s ≡ true
    → split_lines (s ++ t) ≡ split_lines s ++ split_lines t
unfolding ends_with_newline
split_lines-append [] t h = absurd (cc h)
split_lines-append (c ∷ []) t h =
    rw
      (
        split_lines-step c t,
        split_lines-step c [],
        ends_line-newline c t h,
        ends_line-newline c [] h,
        split_lines-empty,
      )
      refl
split_lines-append (c ∷ d ∷ s) t h =
    let (l, ls, e) = add_line-cons (ends_line d s) d (split_lines s) in
    rw
      (
        split_lines-step c (d ∷ (s ++ t)),
        split_lines-step c (d ∷ s),
        split_lines-append (d ∷ s) t h,
        split_lines-step d s,
        e,
      )
      (rw (ends_line-cons c d s t) (add_line-append (ends_line c (d ∷ s)) c l ls (split_lines t)))

concat-add_line :
    (b : Bool) (c : ℕ) (lines : List Text) → concat (add_line b c lines) ≡ c ∷ concat lines
concat-add_line true c lines = refl
concat-add_line false c [] = refl
concat-add_line false c (l ∷ ls) = refl

-- Splitting loses no character.
pub concat-split_lines : (s : Text) → concat (split_lines s) ≡ s
concat-split_lines [] = rw split_lines-empty refl
concat-split_lines (c ∷ s) =
    rw
      (
        split_lines-step c s,
        concat-add_line (ends_line c s) c (split_lines s),
        concat-split_lines s,
      )
      refl

-- The search finds the first delimiter line, at the characters that stand before it.
pub closing_from-append :
    (offset : ℕ) (lines : List Text) (line : Text) (rest : List Text)
    → any is_delimiter_line lines ≡ false
    → is_delimiter_line line ≡ true
    → closing_from offset (lines ++ (line ∷ rest)) ≡ some (offset + length (concat lines))
unfolding closing_from
closing_from-append offset [] line rest none_before h = rw h (ground arith)
closing_from-append offset (l ∷ lines) line rest none_before h =
    ground (
      arith,
      closing_from-append (offset + length l) lines line rest,
      length-append l (concat lines),
    )

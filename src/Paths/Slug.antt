-- ===== src/Paths/Slug.antt =====
-- The shape of a slug: words of lower-case letters and digits, separated by single dashes.
use veillee.Base.{
  ℕ, ◌≤◌, ◌≡◌, ◌≢◌, refl, Bool, true, false, not, [], ◌∷◌, ◌&&◌, ◌||◌, zero, suc, arith, length,
  take, contains, length-take-le, nat_eq, inl, inr, Bool-cases, if◌then◌else◌, ltb,
}
use veillee.Base.Text.{Text, codes, strip, strip_left, strip_right}
use veillee.Paths.{
  dash, is_dash, is_slug_char, squash, before_last_dash, cut_slug, or_text, slugify, ascii_lower,
}

-- No other character, and no dash behind a dash. The flag says that a dash stood before.
no_double : Bool → Text → Bool
no_double b [] = true
no_double b (c ∷ s) =
    if is_slug_char c then no_double false s else (is_dash c && not b && no_double true s)

-- The same, and the text ends in no dash; with the flag, it begins with none and is not empty.
pub well_dashed : Bool → Text → Bool
well_dashed b [] = not b
well_dashed b (c ∷ s) =
    if is_slug_char c then well_dashed false s else (is_dash c && not b && well_dashed true s)

-- A nonempty text of words of a-z and 0-9 with single dashes between them.
abbrev pub IsSlug : Text → Type 0
IsSlug s = well_dashed true s ≡ true

abbrev is_nil : Text → Bool
is_nil [] = true
is_nil (c ∷ s) = false

-- A text to which nothing, or a well dashed one, was left.
abbrev nil_or : Bool → Text → Bool
nil_or b s = is_nil s || well_dashed b s

dash_not_char : (c : ℕ) → is_dash c ≡ true → is_slug_char c ≡ false
dash_not_char c h = ground arith

no_double-squash : (b : Bool) (s : Text) → no_double b (squash b s) ≡ true
unfolding no_double squash
no_double-squash b [] = refl
no_double-squash true (c ∷ s) = ground (arith, no_double-squash false s, no_double-squash true s)
no_double-squash false (c ∷ s) = ground (arith, no_double-squash false s, no_double-squash true s)

nil_or-strip_right :
    (b : Bool) (s : Text) → no_double b s ≡ true → nil_or b (strip_right is_dash s) ≡ true
unfolding no_double well_dashed strip_right
nil_or-strip_right b [] h = refl
nil_or-strip_right b (c ∷ s) h =
    ground (arith, dash_not_char c, nil_or-strip_right false s, nil_or-strip_right true s)

strip_left-char : (s : Text) → well_dashed true s ≡ true → strip_left is_dash s ≡ s
unfolding well_dashed strip_left
strip_left-char [] h = refl
strip_left-char (c ∷ s) h = ground arith

nil_or-strip_left : (s : Text) → nil_or false s ≡ true → nil_or true (strip_left is_dash s) ≡ true
unfolding well_dashed strip_left
nil_or-strip_left [] h = refl
nil_or-strip_left (c ∷ s) h = ground (arith, dash_not_char c, strip_left-char s)

well_dashed-no_double : (b : Bool) (s : Text) → well_dashed b s ≡ true → no_double b s ≡ true
unfolding well_dashed no_double
well_dashed-no_double b [] h = refl
well_dashed-no_double b (c ∷ s) h =
    ground (arith, well_dashed-no_double false s, well_dashed-no_double true s)

no_double-take :
    (b : Bool) (n : ℕ) (s : Text) → no_double b s ≡ true → no_double b (take n s) ≡ true
unfolding no_double
no_double-take b zero s h = refl
no_double-take b (suc n) [] h = refl
no_double-take b (suc n) (c ∷ s) h =
    ground (arith, no_double-take false n s, no_double-take true n s)

-- With no dash in it, a text of the kind is well dashed.
no_dash-well_dashed :
    (s : Text) → contains s dash ≡ false → no_double false s ≡ true → well_dashed false s ≡ true
unfolding no_double well_dashed
no_dash-well_dashed [] e h = refl
no_dash-well_dashed (c ∷ s) e h = ground (arith, no_dash-well_dashed s)

before_last-not_nil :
    (s : Text) → no_double true s ≡ true → s ≢ [] → is_nil (before_last_dash s) ≡ false
unfolding no_double before_last_dash
before_last-not_nil [] h n = absurd (n refl)
before_last-not_nil (c ∷ s) h n = ground arith

nil_or-before_last :
    (b : Bool) (s : Text) → no_double b s ≡ true → nil_or b (before_last_dash s) ≡ true
unfolding no_double well_dashed before_last_dash
nil_or-before_last b [] h = refl
nil_or-before_last b (c ∷ s) h = ground (
  arith,
  dash_not_char c,
  nil_or-before_last false s,
  nil_or-before_last true s,
  no_dash-well_dashed s,
  before_last-not_nil s,
)

length-before_last_dash : (s : Text) → length (before_last_dash s) ≤ length s
unfolding before_last_dash
length-before_last_dash [] = omega arith
length-before_last_dash (c ∷ s) = ground (arith, length-before_last_dash s)

take-suc-not_nil : (n : ℕ) (s : Text) → well_dashed true s ≡ true → take (suc n) s ≢ []
unfolding well_dashed
take-suc-not_nil n [] h = cc
take-suc-not_nil n (c ∷ s) h = cc

kept-IsSlug :
    (m : ℕ) (t : Text)
    → no_double true t ≡ true
    → t ≢ []
    → length t ≤ m
    → IsSlug (or_text (before_last_dash t) t) × (length (or_text (before_last_dash t) t) ≤ m)
kept-IsSlug m t h n le =
    ground
      (arith, before_last-not_nil t h n, nil_or-before_last true t h, length-before_last_dash t)

cut_slug-IsSlug :
    (n : ℕ) (s : Text)
    → IsSlug s
    → IsSlug (cut_slug (suc n) s) × (length (cut_slug (suc n) s) ≤ suc n)
cut_slug-IsSlug n s h = elim (Bool-cases (ltb (suc n) (length s))) [
  | inl long ↦ rw long (
      kept-IsSlug (suc n) (take (suc n) s)
        (no_double-take true (suc n) s (well_dashed-no_double true s h)) (take-suc-not_nil n s h)
        (length-take-le (suc n) s))
  | inr short ↦ rw short (h, ground arith)
]

nil_or-strip : (s : Text) → no_double false s ≡ true → nil_or true (strip is_dash s) ≡ true
unfolding strip
nil_or-strip s h = nil_or-strip_left (strip_right is_dash s) (nil_or-strip_right false s h)

untitled-IsSlug : IsSlug (codes "untitled") × (length (codes "untitled") ≤ 8)
unfolding well_dashed
untitled-IsSlug = (refl, omega arith)

cut_slug-nil : (n : ℕ) → cut_slug (suc n) [] ≡ []
cut_slug-nil n = ground arith

finish-IsSlug :
    (n : ℕ) (s : Text)
    → 8 ≤ suc n
    → nil_or true s ≡ true
    → IsSlug (or_text (cut_slug (suc n) s) (codes "untitled"))
      × (length (or_text (cut_slug (suc n) s) (codes "untitled")) ≤ suc n)
finish-IsSlug n [] room h =
    rw (cut_slug-nil n) (untitled-IsSlug.0, omega (arith, untitled-IsSlug.1))
finish-IsSlug n (c ∷ s) room h =
    let (good, short) = cut_slug-IsSlug n (c ∷ s) h in
    or_text_keeps (cut_slug (suc n) (c ∷ s)) good short
  where
    or_text_keeps :
        (t : Text)
        → IsSlug t
        → length t ≤ suc n
        → IsSlug (or_text t (codes "untitled")) × (length (or_text t (codes "untitled")) ≤ suc n)
    or_text_keeps [] g l = (untitled-IsSlug.0, omega (arith, untitled-IsSlug.1))
    or_text_keeps (d ∷ t) g l = (g, l)

-- Whatever the text and the normalisation, a slug is a nonempty text of words of a-z and 0-9 with
-- single dashes between them, and is no longer than the limit, where that is at least eight.
pub slugify-IsSlug :
    (nfkd : Text → Text) (text : Text) (max_length : ℕ)
    → 8 ≤ max_length
    → IsSlug (slugify nfkd text max_length) × (length (slugify nfkd text max_length) ≤ max_length)
unfolding slugify
slugify-IsSlug nfkd text zero room = absurd (omega arith)
slugify-IsSlug nfkd text (suc n) room =
    finish-IsSlug n (strip is_dash (squash false (ascii_lower (nfkd text)))) room (
      nil_or-strip (squash false (ascii_lower (nfkd text)))
        (no_double-squash false (ascii_lower (nfkd text))))

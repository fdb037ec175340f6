-- ===== src/Base/Text.antt =====
-- Texts as lists of code points, with the operations of Python's `str` that the program uses.
use Prim.Native.Nat.{ℕ}
use Prim.Native.Char.{code}
use Prim.Native.String.{String}
use mathlib.Core.Bool.{Bool, true, false, ◌&&◌, ◌||◌}
use mathlib.Core.List.{List, [], ◌∷◌}
use veillee.Base.Tests.{if◌then◌else◌, leb}
use veillee.Base.Equality.{◌==◌, nat_eq}

abbrev pub Text : Type 0
Text = List ℕ

abbrev pub codes : String → Text
codes String.[] = []
codes (String.◌∷◌ c s) = code c ∷ codes s

-- text.startswith(prefix)
unfoldable pub starts_with : Text → Text → Bool
starts_with s [] = true
starts_with [] (p ∷ ps) = false
starts_with (c ∷ s) (p ∷ ps) = c == p && starts_with s ps

-- needle in text
unfoldable pub has_infix : Text → Text → Bool
unfolding starts_with
has_infix [] needle = starts_with [] needle
has_infix (c ∷ s) needle = starts_with (c ∷ s) needle || has_infix s needle

module _ (p : ℕ → Bool) where
  -- text.lstrip, for the characters that pass
  unfoldable pub strip_left : Text → Text
  strip_left [] = []
  strip_left (c ∷ s) = let rest = strip_left s in if p c then rest else c ∷ s

  -- text.rstrip
  unfoldable pub strip_right : Text → Text
  strip_right [] = []
  strip_right (c ∷ s) = strip_cons c (strip_right s)
    where
      strip_cons : ℕ → Text → Text
      strip_cons c [] = if p c then [] else c ∷ []
      strip_cons c (d ∷ r) = c ∷ d ∷ r

  -- text.strip
  unfoldable pub strip : Text → Text
  unfolding strip_left strip_right
  strip s = strip_left (strip_right s)

abbrev pub is_newline : ℕ → Bool
is_newline c = c == 10

-- str.isspace, which `str.strip` and `str.split` go by.
abbrev pub is_space : ℕ → Bool
is_space c =
    (leb 9 c && leb c 13)
    || (leb 28 c && leb c 32)
    || c == 133
    || c == 160
    || c == 5760
    || (leb 8192 c && leb c 8202)
    || c == 8232
    || c == 8233
    || c == 8239
    || c == 8287
    || c == 12288

abbrev pub is_digit : ℕ → Bool
is_digit c = leb b'0' c && leb c b'9'

abbrev pub is_lower : ℕ → Bool
is_lower c = leb b'a' c && leb c b'z'

abbrev pub is_upper : ℕ → Bool
is_upper c = leb b'A' c && leb c b'Z'

-- ===== src/Transcripts/Spoken.antt =====
-- apply_spoken_punctuation of transcribe.py: the four regular expressions, read from left to right. A
-- matcher is told the character before and what follows, and gives the replacement and how many
-- characters it takes the place of. `\s` is ASCII white space.
use veillee.Base.{
  ℕ, zero, suc, ◌+◌, ◌-◌, Bool, true, false, Option, none, some, [], ◌∷◌, ◌++◌, ◌&&◌, ◌||◌,
  if◌then◌else◌, ltb, drop, ◌==◌, nat_eq, list_eq, contains,
}
use veillee.Base.Text.{Text, codes, strip, is_space, is_newline, starts_with}

-- Unicode's word characters, and `str.upper` of one character.
pub record Letters : Type 0 where
  pub is_word : ℕ → Bool
  pub upper : ℕ → Text

abbrev pub Matcher : Type 0
Matcher = Option ℕ → Text → Option (Text × ℕ)

-- pattern.sub(replacement, text). The number counts the characters still to be skipped.
unfoldable pub substitute : Matcher → Option ℕ → ℕ → Text → Text
substitute find before skip [] = []
substitute find before (suc skip) (c ∷ s) = substitute find (some c) skip s
substitute find before zero (c ∷ s) = elim (find before (c ∷ s)) [
  | none ↦ c ∷ substitute find (some c) zero s
  | some (replacement, taken) ↦ replacement ++ substitute find (some c) (taken - 1) s
]

-- How many characters at the front pass.
unfoldable pub run_length : (ℕ → Bool) → Text → ℕ
run_length p [] = 0
run_length p (c ∷ s) = let rest = run_length p s in if p c then suc rest else 0

abbrev pub ends_sentence : ℕ → Bool
ends_sentence c = contains (codes ".!?") c

-- (?:(?<=[.!?])|^)
abbrev pub at_sentence : Option ℕ → Bool
at_sentence none = true
at_sentence (some c) = ends_sentence c

abbrev pub when {ℓ} : {A : Type ℓ} → Bool → A → Option A
when true a = some a
when false a = none

abbrev capital : Letters → ℕ → Text → Option (Text × ℕ)
capital letters taken [] = none
capital letters taken (c ∷ s) = when (letters.is_word c) (codes ". " ++ letters.upper c, taken + 1)

abbrev at_word : Letters → ℕ → ℕ → Text → Option (Text × ℕ)
at_word letters taken zero s = none
at_word letters taken (suc n) s = capital letters (taken + suc n) (drop (suc n) s)

-- `,\s+period` and the rest of a pattern, after `spaces` characters of white space
abbrev after_spaces : ℕ → Text → (ℕ → Text → Option (Text × ℕ)) → Option (Text × ℕ)
after_spaces zero s rest = none
after_spaces (suc n) s rest = elim (starts_with (drop (suc n) s) (codes "period")) [
  | false ↦ none
  | true ↦ rest (suc n + 7) (drop 6 (drop (suc n) s))
]

abbrev comma_period : Text → (ℕ → Text → Option (Text × ℕ)) → Option (Text × ℕ)
comma_period [] rest = none
comma_period (c ∷ s) rest = elim (c == b',') [
  | false ↦ none
  | true ↦ after_spaces (run_length is_space s) s rest
]

-- `,\s+(\w)`
abbrev comma_word : Letters → ℕ → Text → Option (Text × ℕ)
comma_word letters taken [] = none
comma_word letters taken (c ∷ s) = elim (c == b',') [
  | false ↦ none
  | true ↦ at_word letters (taken + 1) (run_length is_space s) s
]

abbrev begins_with : (ℕ → Bool) → Text → Bool
begins_with p [] = false
begins_with p (c ∷ s) = p c

-- `,\s+period,\s+(\w)`
unfoldable pub dictated_period : Letters → Matcher
unfolding run_length
dictated_period letters before s = comma_period s (comma_word letters)

-- `,\s+period\s*(?=[.!?])`
unfoldable pub doubled_period : Matcher
unfolding run_length
doubled_period before s = comma_period s (λ taken rest.
    let n = run_length is_space rest in
    when (begins_with ends_sentence (drop n rest)) ([], taken + n))

abbrev ends_here : Text → Bool
ends_here [] = true
ends_here (c ∷ s) = is_space c

-- `(?:(?<=[.!?])|^)\s*Period\.(?=\s|$)`
unfoldable pub lone_period : Matcher
unfolding run_length
lone_period before s =
    let n = run_length is_space s in
    let word = drop n s in
    when (at_sentence before && starts_with word (codes "Period.") && ends_here (drop 7 word))
      ([], n + 7)

-- `(?:(?<=[.!?])|^)\s*Paragraph\s+`
unfoldable pub paragraph_break : Matcher
unfolding run_length
paragraph_break before s =
    let n = run_length is_space s in
    let word = drop n s in
    let m = run_length is_space (drop 9 word) in
    when (at_sentence before && starts_with word (codes "Paragraph") && ltb 0 m)
      (codes "\n\n", n + 9 + m)

abbrev pub is_space_or_tab : ℕ → Bool
is_space_or_tab c = c == 32 || c == 9

-- `[ \t]{2,}`
unfoldable pub doubled_blank : Matcher
unfolding run_length
doubled_blank before s = let n = run_length is_space_or_tab s in when (ltb 1 n) (codes " ", n)

unfoldable pub apply_spoken_punctuation : Letters → Text → Text
unfolding substitute dictated_period doubled_period lone_period paragraph_break doubled_blank
apply_spoken_punctuation letters text =
    let first = substitute (dictated_period letters) none 0 text in
    let second = substitute doubled_period none 0 first in
    let third = substitute lone_period none 0 second in
    let fourth = substitute paragraph_break none 0 third in
    strip is_space (strip is_newline (substitute doubled_blank none 0 fourth))

-- ===== src/Paths.antt =====
-- storage/paths.py: how names are built. Unicode's NFKD normalisation is the parameter `nfkd`. A
-- moment of UTC is its calendar fields, which `strftime` prints padded.
pub mod Slug
pub mod Ids
mod Tests
use veillee.Base.{
  ℕ, ◌+◌, ◌-◌, ◌*◌, ◌≤◌, Bool, true, false, not, Option, none, some, List, [], ◌∷◌, ◌++◌, map, ◌&&◌,
  ◌||◌, if◌then◌else◌, ltb, leb, length, concat, take, drop, filter, all, ◌==◌, nat_eq, list_eq,
  contains,
}
use veillee.Base.Text.{Text, codes, strip, is_digit, is_lower, is_upper, is_space}
use veillee.Base.Decimal.{pad}
use veillee.Models.{FilePath}

abbrev pub max_slug_length : ℕ
max_slug_length = 60

abbrev pub dash : ℕ
dash = b'-'

abbrev pub is_dash : ℕ → Bool
is_dash c = c == dash

-- [a-z0-9]
abbrev pub is_slug_char : ℕ → Bool
is_slug_char c = is_lower c || is_digit c

-- text.encode("ascii", "ignore").decode("ascii").lower()
abbrev pub ascii_lower : Text → Text
ascii_lower s = map (λ c. if is_upper c then c + 32 else c) (filter (λ c. ltb c 128) s)

-- `_SLUG_STRIP.sub("-", s)`: each run of other characters becomes one dash. The flag says that the
-- character before stood in such a run.
unfoldable pub squash : Bool → Text → Text
squash in_run [] = []
squash in_run (c ∷ s) =
    let kept = squash false s in
    let dropped = squash true s in
    if is_slug_char c then c ∷ kept else if in_run then dropped else dash ∷ dropped

-- text.rsplit("-", 1)[0]
unfoldable pub before_last_dash : Text → Text
before_last_dash [] = []
before_last_dash (c ∷ s) =
    let rest = before_last_dash s in
    if contains s dash then c ∷ rest else if is_dash c then [] else c ∷ s

-- x or y, for texts
abbrev pub or_text : Text → Text → Text
or_text [] t = t
or_text (c ∷ s) t = c ∷ s

abbrev pub cut_slug : ℕ → Text → Text
cut_slug max_length slug =
    if ltb max_length (length slug)
    then or_text (before_last_dash (take max_length slug)) (take max_length slug)
    else slug

unfoldable pub slugify : (Text → Text) → Text → ℕ → Text
unfolding squash before_last_dash
slugify nfkd text max_length =
    let slug = strip is_dash (squash false (ascii_lower (nfkd text))) in
    or_text (cut_slug max_length slug) (codes "untitled")

-- The rest after the digits of `^[a-z]\d{3,}$`: nothing, or one newline, before which `$` matches too.
abbrev digits_of : Text → Text
digits_of [] = []
digits_of (c ∷ s) = if is_newline_end c s then [] else c ∷ digits_of s
  where
    is_newline_end : ℕ → Text → Bool
    is_newline_end c [] = c == 10
    is_newline_end c (d ∷ r) = false

-- The zeros beyond ASCII of Unicode 15's decimal digits, of which nine others follow each.
abbrev digit_zeros : List ℕ
digit_zeros =
    1632 ∷ 1776 ∷ 1984 ∷ 2406 ∷ 2534 ∷ 2662 ∷ 2790 ∷ 2918 ∷ 3046 ∷ 3174 ∷ 3302 ∷ 3430 ∷ 3558 ∷ 3664
    ∷ 3792 ∷ 3872 ∷ 4160 ∷ 4240 ∷ 6112 ∷ 6160 ∷ 6470 ∷ 6608 ∷ 6784 ∷ 6800 ∷ 6992 ∷ 7088 ∷ 7232
    ∷ 7248 ∷ 42528 ∷ 43216 ∷ 43264 ∷ 43472 ∷ 43504 ∷ 43600 ∷ 44016 ∷ 65296 ∷ 66720 ∷ 68912 ∷ 69734
    ∷ 69872 ∷ 69942 ∷ 70096 ∷ 70384 ∷ 70736 ∷ 70864 ∷ 71248 ∷ 71360 ∷ 71472 ∷ 71904 ∷ 72016 ∷ 72784
    ∷ 73040 ∷ 73120 ∷ 73552 ∷ 92768 ∷ 92864 ∷ 93008 ∷ 120782 ∷ 120792 ∷ 120802 ∷ 120812 ∷ 120822
    ∷ 123200 ∷ 123632 ∷ 124144 ∷ 125264 ∷ 130032 ∷ []

abbrev digit_from : List ℕ → ℕ → Option ℕ
digit_from [] c = none
digit_from (z ∷ zs) c = if leb z c && leb c (z + 9) then some (c - z) else digit_from zs c

-- The value of a character that `\d` matches, which `int` reads alike.
abbrev digit_value : ℕ → Option ℕ
digit_value c = if is_digit c then some (c - b'0') else digit_from digit_zeros c

abbrev number_with : (ℕ → Option ℕ) → Option ℕ → Option ℕ
number_with rest none = none
number_with rest (some n) = rest n

-- int(match.group("number")), where `none` is a text that is not all digits.
number_of : ℕ → Text → Option ℕ
number_of acc [] = some acc
number_of acc (c ∷ s) = number_with (λ d. number_of (acc * 10 + d) s) (digit_value c)

abbrev id_with : ℕ → Option ℕ → Option (ℕ × ℕ)
id_with prefix none = none
id_with prefix (some number) = some (prefix, number)

-- `none` is the ValueError.
unfoldable pub parse_question_id : Text → Option (ℕ × ℕ)
unfolding number_of
parse_question_id [] = none
parse_question_id (prefix ∷ rest) =
    let number = digits_of rest in
    if is_lower prefix && leb 3 (length number) then id_with prefix (number_of 0 number) else none

unfoldable pub chapter_dirname : ℕ → Text → Text
chapter_dirname chapter_order chapter_slug = pad 2 chapter_order ++ (dash ∷ chapter_slug)

unfoldable pub answer_leaf : (Text → Text) → ℕ → Text → Text
unfolding slugify
answer_leaf nfkd number text =
    pad 3 number ++ (dash ∷ (slugify nfkd text max_slug_length ++ codes ".md"))

-- `none` is the ValueError of `parse_question_id`.
unfoldable pub answer_relpath : (Text → Text) → ℕ → Text → Text → Text → Option FilePath
unfolding parse_question_id answer_leaf
answer_relpath nfkd chapter_order chapter_slug question_id text =
    elim (parse_question_id question_id) [
      | none ↦ none
      | some (_, number) ↦
          some (chapter_dirname chapter_order chapter_slug ∷ answer_leaf nfkd number text ∷ [])
    ]

pub record Moment : Type 0 where
  pub year : ℕ
  pub month : ℕ
  pub day : ℕ
  pub hour : ℕ
  pub minute : ℕ
  pub second : ℕ
  pub microsecond : ℕ

-- %Y%m%d-%H%M%S
abbrev pub compact_stamp : Moment → Text
compact_stamp m =
    pad 4 m.year
    ++ (pad 2 m.month
        ++ (pad 2 m.day ++ (dash ∷ (pad 2 m.hour ++ (pad 2 m.minute ++ pad 2 m.second)))))

unfoldable pub recording_id : Text → Moment → Text
recording_id question_id m = compact_stamp m ++ (dash ∷ question_id)

-- text.split("-", 1)[0]
unfoldable pub before_first_dash : Text → Text
before_first_dash [] = []
before_first_dash (c ∷ s) = if is_dash c then [] else c ∷ before_first_dash s

unfoldable pub recording_dir_for : Text → FilePath
recording_dir_for recording_id_value =
    let stamp = before_first_dash recording_id_value in take 4 stamp ∷ take 2 (drop 4 stamp) ∷ []

-- %Y-%m-%dT%H:%M:%SZ
unfoldable pub utc_now_iso : Moment → Text
utc_now_iso m = concat (
    pad 4 m.year
    ∷ codes "-"
    ∷ pad 2 m.month
    ∷ codes "-"
    ∷ pad 2 m.day
    ∷ codes "T"
    ∷ pad 2 m.hour
    ∷ codes ":"
    ∷ pad 2 m.minute
    ∷ codes ":"
    ∷ pad 2 m.second
    ∷ codes "Z"
    ∷ [])

unfoldable pub revision_stamp : Moment → Text
revision_stamp m = compact_stamp m ++ (dash ∷ pad 6 m.microsecond)

-- len(body.split()): the runs of characters that are not white space. The flag says that the
-- character before stood in such a run.
words_from : Bool → Text → ℕ
words_from in_word [] = 0
words_from in_word (c ∷ s) =
    (if is_space c then 0 else if in_word then 0 else 1) + words_from (not (is_space c)) s

unfoldable pub count_words : Text → ℕ
unfolding words_from
count_words body = words_from false body

-- ===== src/Paths/Ids.antt =====
-- Ids: printing and parsing agree, and a recording's directory is read off its own id.
use mathlib.Core.List.{append_assoc}
use veillee.Base.{
  ℕ, ◌*◌, ◌+◌, ◌-◌, Bool-cases, inl, inr, ◌<◌, ◌≡◌, refl, true, some, [], ◌∷◌, ◌++◌, zero, suc,
  arith, length, take, drop, all, nat_eq, le→leb,
}
use veillee.Base.Text.{Text, is_digit, is_lower}
use veillee.Base.Decimal.{pad, value_from, value_from-pad, all-pad, length-pad, length-pad-ge}
use veillee.Paths.{
  dash, Moment, digits_of, number_of, parse_question_id, recording_id, recording_dir_for,
  before_first_dash,
}

digits_of-digits : (s : Text) → all is_digit s ≡ true → digits_of s ≡ s
digits_of-digits [] h = refl
digits_of-digits (c ∷ []) h = ground arith
digits_of-digits (c ∷ d ∷ s) h = ground (arith, digits_of-digits (d ∷ s))

number_of-digits :
    (acc : ℕ) (s : Text) → all is_digit s ≡ true → number_of acc s ≡ some (value_from acc s)
unfolding number_of value_from
number_of-digits acc [] h = refl
number_of-digits acc (c ∷ s) h = elim (Bool-cases (is_digit c)) [
  | inl e ↦ rw e (number_of-digits (acc * 10 + (c - b'0')) s (ground arith))
  | inr n ↦ absurd (ground arith)
]

-- An id that is printed with three digits at least parses back to its series and its number.
pub parse_question_id-pad :
    (prefix number : ℕ)
    → is_lower prefix ≡ true
    → parse_question_id (prefix ∷ pad 3 number) ≡ some (prefix, number)
unfolding parse_question_id
parse_question_id-pad prefix number h = rw (
  digits_of-digits (pad 3 number) (all-pad 3 number),
  h,
  le→leb 3 (length (pad 3 number)) (length-pad-ge 3 number),
  number_of-digits 0 (pad 3 number) (all-pad 3 number),
  value_from-pad 3 number,
)

take-append_at : (n : ℕ) (s t : Text) → length s ≡ n → take n (s ++ t) ≡ s
take-append_at zero [] t h = refl
take-append_at zero (c ∷ s) t h = absurd (omega arith)
take-append_at (suc n) [] t h = absurd (omega arith)
take-append_at (suc n) (c ∷ s) t h = ground (arith, take-append_at n s t (omega arith))

drop-append_at : (n : ℕ) (s t : Text) → length s ≡ n → drop n (s ++ t) ≡ t
drop-append_at zero [] t h = refl
drop-append_at zero (c ∷ s) t h = absurd (omega arith)
drop-append_at (suc n) [] t h = absurd (omega arith)
drop-append_at (suc n) (c ∷ s) t h = drop-append_at n s t (omega arith)

before_first_dash-digits :
    (s t : Text) → all is_digit s ≡ true → before_first_dash (s ++ t) ≡ s ++ before_first_dash t
unfolding before_first_dash
before_first_dash-digits [] t h = refl
before_first_dash-digits (c ∷ s) t h = ground (arith, before_first_dash-digits s t)

before_first_dash-dash : (t : Text) → before_first_dash (dash ∷ t) ≡ []
unfolding before_first_dash
before_first_dash-dash t = refl

stamp-recording_id :
    (question_id : Text) (m : Moment)
    → before_first_dash (recording_id question_id m)
      ≡ pad 4 m.year ++ (pad 2 m.month ++ (pad 2 m.day ++ []))
unfolding recording_id
stamp-recording_id question_id m =
    let time = pad 2 m.hour ++ (pad 2 m.minute ++ pad 2 m.second) in
    rw (
      append_assoc (pad 4 m.year) (pad 2 m.month ++ (pad 2 m.day ++ (dash ∷ time)))
          (dash ∷ question_id),
      append_assoc (pad 2 m.month) (pad 2 m.day ++ (dash ∷ time)) (dash ∷ question_id),
      append_assoc (pad 2 m.day) (dash ∷ time) (dash ∷ question_id),
      before_first_dash-digits (pad 4 m.year) _ (all-pad 4 m.year),
      before_first_dash-digits (pad 2 m.month) _ (all-pad 2 m.month),
      before_first_dash-digits (pad 2 m.day) _ (all-pad 2 m.day),
      before_first_dash-dash (time ++ (dash ∷ question_id)),
    )

-- The directory that is derived from a recording's id is the year and the month of its moment, for
-- any question and every year of four digits.
pub recording_dir_for-recording_id :
    (question_id : Text) (m : Moment)
    → m.year < 10000
    → m.month < 100
    → recording_dir_for (recording_id question_id m) ≡ pad 4 m.year ∷ pad 2 m.month ∷ []
unfolding recording_dir_for
recording_dir_for-recording_id question_id m year month =
    let year_width = length-pad 3 m.year year in
    let month_width = length-pad 1 m.month month in
    rw (
      stamp-recording_id question_id m,
      take-append_at 4 (pad 4 m.year) _ year_width,
      drop-append_at 4 (pad 4 m.year) _ year_width,
      take-append_at 2 (pad 2 m.month) _ month_width,
    )

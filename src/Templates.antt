-- ===== src/Templates.antt =====
-- web/templating.py: how the pages show times, dates, lengths and roles. `strptime`, and the name of a
-- month, are parameters.
mod Tests
use veillee.Base.{
  ℕ, ◌+◌, ◌/◌, ◌%◌, Bool, true, false, Option, none, some, List, [], ◌∷◌, ◌++◌, ltb, if◌then◌else◌,
  ◌==◌, nat_eq, list_eq,
}
use veillee.Base.Text.{Text, codes}
use veillee.Base.Decimal.{decimal, pad}
use veillee.Auth.{role_family}
use veillee.Transcripts.{round_seconds}

pub record Instant : Type 0 where
  pub year : ℕ
  pub month : ℕ
  pub day : ℕ
  pub hour : ℕ
  pub minute : ℕ

-- hour % 12 or 12
abbrev twelve_hour : ℕ → ℕ
twelve_hour hour = if hour % 12 == 0 then 12 else hour % 12

unfoldable pub friendly_time : (Text → Option Instant) → Text → Text
friendly_time strptime value = elim (strptime value) [
  | none ↦ []
  | some m ↦
      decimal (twelve_hour m.hour)
      ++ (codes ":" ++ (pad 2 m.minute ++ (if ltb m.hour 12 then codes "am" else codes "pm")))
]

unfoldable pub friendly_date : (Text → Option Instant) → (ℕ → Text) → Text → Text
friendly_date strptime month_name value = elim (strptime value) [
  | none ↦ []
  | some m ↦ decimal m.day ++ (codes " " ++ (month_name m.month ++ (codes " " ++ decimal m.year)))
]

abbrev plural : ℕ → Text
plural n = if n == 1 then [] else codes "s"

abbrev of_minutes : ℕ → Text
of_minutes n = decimal n ++ (codes " minute" ++ plural n)

unfoldable pub friendly_duration : ℕ → Text
unfolding round_seconds
friendly_duration ms =
    let minutes = round_seconds ms / 60 in
    let remainder = round_seconds ms % 60 in
    if minutes == 0
    then decimal remainder ++ (codes " second" ++ plural remainder)
    else if remainder == 0
    then of_minutes minutes
    else of_minutes minutes ++ (codes " " ++ (decimal remainder ++ codes " seconds"))

pub record RoleContext : Type 0 where
  pub role : Text
  pub read_only : Bool

unfoldable pub role_context : Text → RoleContext
role_context role = record { role = role; read_only = role == role_family }

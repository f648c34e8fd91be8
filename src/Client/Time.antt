-- ===== src/Client/Time.antt =====
-- src/lib/client/time.ts: the week of the semester and its parity, and the lessons that run in it.
-- Days are whole days from a Thursday in the year -1, a whole number of weeks before the source's
-- origin 1970-01-01, so that every day that the source can name is a natural number; the source
-- only subtracts days and takes their remainder by 7. The civil date in Chișinău is
-- `Intl.DateTimeFormat`'s and an argument.
pub mod Weeks
use utm_curs_i_orar.Prelude.{
  ℕ, ◌+◌, ◌-◌, ◌*◌, ◌/◌, ◌%◌, ◌≡◌, Bool, true, false, ◌&&◌, not, Option, none, some, List, [], ◌∷◌,
  leb, ltb, ◌==◌, if◌then◌else◌, ℤ, pos, ◌⊖◌, ◌+ℤ◌, modulo, rounded,
}
use utm_curs_i_orar.Text.{Text, codes, Class, digit, unit, times, matches, slice, trim}
use utm_curs_i_orar.Models.{WeekParity, odd, even, both, unknown, Lesson}
use utm_curs_i_orar.Worker.Instants.{number, days_before_year, days_before_month}

abbrev pub default_odd_week_anchor : Text
default_odd_week_anchor = codes "2026-08-31"

pub data WeekParityName : Type 0 where
  odd_week even_week : WeekParityName

pub record WeekInfo : Type 0 where
  pub number : ℤ
  pub parity : WeekParityName
  pub looking_ahead : Bool

-- `chisinauDay`: the day and its index in a week from Monday.
pub record Today : Type 0 where
  pub day : ℕ
  pub weekday : ℕ

abbrev anchor_regex : List Class
anchor_regex = times 4 digit (unit b'-' ∷ times 2 digit (unit b'-' ∷ times 2 digit []))

-- `Date.UTC(year, month - 1, day)` in days: a year below 100 is one of the 1900s, and months and
-- days beyond the calendar's carry over.
unfoldable pub utc_day : ℕ → ℕ → ℕ → ℕ
unfolding days_before_year days_before_month
utc_day y m d =
    let year : ℕ = if ltb y 100 then 1900 + y else y in
    let months : ℕ = year * 12 + m - 1 in
    days_before_year (months / 12) + days_before_month (months / 12) (months % 12 + 1) + d + 1

unfoldable pub anchor_day : Text → Option ℕ
unfolding utc_day number
anchor_day anchor =
    let t : Text = trim anchor in
    if matches anchor_regex t
    then some (utc_day (number (slice 0 4 t)) (number (slice 5 7 t)) (number (slice 8 10 t)))
    else none

unfoldable pub start_day : Text → ℕ
unfolding anchor_day
start_day anchor = elim (anchor_day anchor) [
  | some d ↦ d
  | none ↦ elim (anchor_day default_odd_week_anchor) [ some d ↦ d | none ↦ 0 ]
]

unfoldable pub parity_of : ℤ → WeekParityName
parity_of n = if modulo n 2 == 1 then odd_week else even_week

-- `currentWeek` from the anchor's day.
unfoldable pub week_from : ℕ → Today → WeekInfo
unfolding parity_of
week_from start today =
    let anchor_monday : ℕ = start - modulo (start ⊖ 4) 7 in
    let this_monday : ℕ = today.day - today.weekday in
    let looking_ahead : Bool = leb 5 today.weekday in
    let n : ℤ = rounded (this_monday ⊖ anchor_monday) 7 +ℤ 1 +ℤ (if looking_ahead then 1 else 0) in
    record { number = n; parity = parity_of n; looking_ahead = looking_ahead }

unfoldable pub current_week : Text → Today → WeekInfo
unfolding week_from start_day
current_week anchor today = week_from (start_day anchor) today

-- `isOtherWeek`
unfoldable pub is_other_week : WeekParity → WeekParityName → Bool
is_other_week odd odd_week = false
is_other_week odd even_week = true
is_other_week even odd_week = true
is_other_week even even_week = false
is_other_week both p = false
is_other_week unknown p = false

unfoldable pub lessons_this_week : List Lesson → WeekParityName → List Lesson
unfolding is_other_week
lessons_this_week [] p = []
lessons_this_week (l ∷ ls) p =
    let rest = lessons_this_week ls p in
    if not (is_other_week l.week_parity p) then l ∷ rest else rest

-- `toMinutes` of a text that the schema admits, HH:MM.
unfoldable pub to_minutes : Text → ℕ
unfolding number
to_minutes t = number (slice 0 2 t) * 60 + number (slice 3 5 t)

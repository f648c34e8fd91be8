-- ===== src/Worker/Instants.antt =====
-- The instants in snapshot ids and in WordPress stamps: `snapshotIdInstant` and
-- `snapshotWorkExpired` of worker/src/maintenance.ts, `wpGmtInstant` of worker/src/publisher.ts.
-- An instant is a number of milliseconds from the start of the year 0, so that every stamp has one;
-- the source only subtracts and compares instants.
use utm_curs_i_orar.Prelude.{
  ℕ, zero, suc, ◌+◌, ◌-◌, ◌*◌, ◌/◌, ◌%◌, Bool, true, ◌&&◌, ◌||◌, not, Option, none, some, List, [],
  ◌∷◌, ltb, leb, ◌==◌, if◌then◌else◌,
}
use utm_curs_i_orar.Text.{number_from, Text, Class, digit, lower_hex, unit, times, matches, slice}

-- SNAPSHOT_ID_REGEX
abbrev pub snapshot_id_regex : List Class
snapshot_id_regex = times 4 digit (
    unit b'-'
    ∷ times 2 digit (
        unit b'-'
        ∷ times 2 digit (
            unit b'T'
            ∷ times 2 digit (
                unit b'-'
                ∷ times 2 digit (
                    unit b'-'
                    ∷ times 2 digit (
                        unit b'-'
                        ∷ times 3 digit (unit b'Z' ∷ unit b'-' ∷ times 8 lower_hex [])))))))

unfoldable pub is_snapshot_id : Text → Bool
is_snapshot_id t = matches snapshot_id_regex t

-- WP_GMT_REGEX
abbrev pub wp_gmt_regex : List Class
wp_gmt_regex = times 4 digit (
    unit b'-'
    ∷ times 2 digit (
        unit b'-'
        ∷ times 2 digit
            (unit b'T' ∷ times 2 digit (unit b':' ∷ times 2 digit (unit b':' ∷ times 2 digit [])))))

unfoldable pub is_wp_gmt : Text → Bool
is_wp_gmt t = matches wp_gmt_regex t

unfoldable pub number : Text → ℕ
number t = number_from 0 t

abbrev is_leap : ℕ → Bool
is_leap y = (y % 4 == 0 && not (y % 100 == 0)) || y % 400 == 0

unfoldable pub days_in_month : ℕ → ℕ → ℕ
days_in_month y m =
    if m == 2
    then (if is_leap y then 29 else 28)
    else if m == 4 || m == 6 || m == 9 || m == 11
    then 30
    else 31

unfoldable pub days_before_month : ℕ → ℕ → ℕ
days_before_month y zero = 0
days_before_month y (suc m) = days_before_month y m + (if m == 0 then 0 else days_in_month y m)

unfoldable pub days_before_year : ℕ → ℕ
days_before_year y = 365 * y + (y + 3) / 4 - (y + 99) / 100 + (y + 399) / 400

-- `Date.parse` of the ISO text, where `new Date(…).toISOString()` gives the text back: the fields
-- are those of a day of the calendar and of a time of that day.
unfoldable pub calendar_instant : ℕ → ℕ → ℕ → ℕ → ℕ → ℕ → ℕ → Option ℕ
unfolding days_in_month days_before_month days_before_year
calendar_instant y m d h mi s ms =
    if leb 1 m
      && leb m 12
      && leb 1 d
      && leb d (days_in_month y m)
      && leb h 23
      && leb mi 59
      && leb s 59
    then some (
        (((days_before_year y + days_before_month y m + (d - 1)) * 24 + h) * 60 + mi) * 60000
        + s * 1000
        + ms)
    else none

unfoldable pub snapshot_id_instant : Text → Option ℕ
unfolding calendar_instant is_snapshot_id number
snapshot_id_instant id =
    if is_snapshot_id id
    then calendar_instant (number (slice 0 4 id)) (number (slice 5 7 id)) (number (slice 8 10 id))
        (number (slice 11 13 id)) (number (slice 14 16 id)) (number (slice 17 19 id))
        (number (slice 20 23 id))
    else none

abbrev pub pending_max_age_ms : ℕ
pending_max_age_ms = 6 * 60 * 60 * 1000

-- `now - created > PENDING_MAX_AGE_MS`; a stamp in the future gives a negative age there, 0 here.
unfoldable pub snapshot_work_expired : Text → ℕ → Bool
snapshot_work_expired id now = elim (snapshot_id_instant id) [
  | none ↦ true
  | some created ↦ ltb pending_max_age_ms (now - created)
]

unfoldable pub wp_gmt_instant : Option Text → Option ℕ
unfolding calendar_instant is_wp_gmt number
wp_gmt_instant none = none
wp_gmt_instant (some t) =
    if is_wp_gmt t
    then calendar_instant (number (slice 0 4 t)) (number (slice 5 7 t)) (number (slice 8 10 t))
        (number (slice 11 13 t)) (number (slice 14 16 t)) (number (slice 17 19 t)) 0
    else none

-- `normalizePageModifiedGmt`
unfoldable pub normalize_page_modified_gmt : Option Text → Option Text
normalize_page_modified_gmt none = none
normalize_page_modified_gmt (some t) = if is_wp_gmt t then some t else none

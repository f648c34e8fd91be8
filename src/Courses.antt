-- ===== src/Courses.antt =====
-- src/lib/courses.ts: the course years that a deployment serves, and the course that a request
-- names. The seeds of the courses, their labels and the messages are left out; the catalogue has
-- an entry for each known year, so the supported years are the selected ones.
pub mod Reading
pub mod Serving
mod Tests
use utm_curs_i_orar.Prelude.{
  ℕ, ◌+◌, ◌-◌, ◌*◌, Bool, true, false, ◌&&◌, not, Option, none, some, List, [], ◌∷◌, leb, ◌==◌,
  if◌then◌else◌, length, all, any,
}
use utm_curs_i_orar.Text.{Text, codes, is_digit, max_safe_integer, number_from, trim}

-- `years.includes(year)`
unfoldable pub is_listed : ℕ → List ℕ → Bool
is_listed year years = any (λ y. y == year) years

-- STRICT_COURSE_TOKEN, `/^[1-9][0-9]*$/`
unfoldable pub is_course_token : Text → Bool
is_course_token [] = false
is_course_token (c ∷ cs) = leb b'1' c && leb c b'9' && all is_digit cs

-- `parseStrictCourse`
unfoldable pub parse_strict_course : Text → Option ℕ
unfolding is_course_token
parse_strict_course raw =
    if is_course_token raw && leb (number_from 0 raw) max_safe_integer
    then some (number_from 0 raw)
    else none

-- The refusals of a configuration.
pub data CourseConfigError : Type 0 where
  empty_list empty_entry : CourseConfigError
  not_a_course : Text → CourseConfigError
  unknown_course repeated_course not_enabled : ℕ → CourseConfigError
  legacy_variable not_exactly_one : CourseConfigError

pub data Configured (A : Type 0) : Type 0 where
  refused : CourseConfigError → Configured A
  configured : A → Configured A

prepend : ℕ → List Text → List Text
prepend c [] = (c ∷ []) ∷ []
prepend c (t ∷ ts) = (c ∷ t) ∷ ts

-- `raw.split(mark)`
unfoldable pub split_on : ℕ → Text → List Text
unfolding prepend
split_on mark [] = [] ∷ []
split_on mark (c ∷ cs) =
    let rest = split_on mark cs in if c == mark then [] ∷ rest else prepend c rest

unfoldable pub year_of : List ℕ → Text → Configured ℕ
unfolding parse_strict_course is_listed
year_of known [] = refused empty_entry
year_of known (c ∷ cs) = elim (parse_strict_course (c ∷ cs)) [
  | none ↦ refused (not_a_course (c ∷ cs))
  | some year ↦ if is_listed year known then configured year else refused (unknown_course year)
]

unfoldable pub years_of : List ℕ → List Text → Configured (List ℕ)
unfolding year_of trim
years_of known [] = configured []
years_of known (entry ∷ entries) =
    let rest = years_of known entries in
    elim (year_of known (trim entry)) [
      | refused e ↦ refused e
      | configured year ↦ elim rest [
        | refused e ↦ refused e
        | configured years ↦ configured (year ∷ years)
      ]
    ]

-- The first year that stands at an earlier place as well.
unfoldable pub duplicate_from : List ℕ → List ℕ → Option ℕ
unfolding is_listed
duplicate_from seen [] = none
duplicate_from seen (year ∷ years) =
    let rest = duplicate_from (year ∷ seen) years in if is_listed year seen then some year else rest

unfoldable pub without_duplicate : List ℕ → Configured (List ℕ)
unfolding duplicate_from
without_duplicate years = elim (duplicate_from [] years) [
  | none ↦ configured years
  | some year ↦ refused (repeated_course year)
]

-- `parseConfiguredList`
unfoldable pub parse_configured_list : List ℕ → Text → Configured (List ℕ)
unfolding trim split_on years_of without_duplicate
parse_configured_list known raw = elim (trim raw) [
  | [] ↦ refused empty_list
  | _ ∷ _ ↦ elim (years_of known (split_on b',' raw)) [
    | refused e ↦ refused e
    | configured years ↦ without_duplicate years
  ]
]

-- The three variables, and the years with the default: none where the source has undefined.
pub record CourseEnv : Type 0 where
  pub schedule_course_year : Option Text
  pub schedule_courses : Option Text
  pub schedule_default_course : Option Text

pub record CourseSelection : Type 0 where
  pub years : List ℕ
  pub default_year : Option ℕ

abbrev pub first_year : List ℕ → Option ℕ
first_year [] = none
first_year (year ∷ years) = some year

unfoldable pub has_legacy : Option Text → Bool
unfolding trim
has_legacy none = false
has_legacy (some raw) = leb 1 (length (trim raw))

unfoldable pub default_among : List ℕ → List ℕ → Configured CourseSelection
unfolding is_listed
default_among years [] = refused not_exactly_one
default_among years (year ∷ []) =
    if is_listed year years
    then configured (record { years = years; default_year = some year })
    else refused (not_enabled year)
default_among years (_ ∷ _ ∷ _) = refused not_exactly_one

unfoldable pub with_default : List ℕ → Option Text → List ℕ → Configured CourseSelection
unfolding parse_configured_list default_among
with_default known none years =
    configured (record { years = years; default_year = first_year years })
with_default known (some raw) years = elim (parse_configured_list known raw) [
  | refused e ↦ refused e
  | configured requested ↦ default_among years requested
]

unfoldable pub enabled_years : List ℕ → Option Text → Configured (List ℕ)
unfolding parse_configured_list
enabled_years known none = configured known
enabled_years known (some raw) = parse_configured_list known raw

-- `resolveCourseSelection`
unfoldable pub resolve_course_selection : CourseEnv → List ℕ → Configured CourseSelection
unfolding has_legacy with_default enabled_years
resolve_course_selection env known =
    if has_legacy env.schedule_course_year
    then refused legacy_variable
    else elim (enabled_years known env.schedule_courses) [
      | refused e ↦ refused e
      | configured years ↦ with_default known env.schedule_default_course years
    ]

pub data CourseParamResult : Type 0 where
  accepted : (course : Option ℕ) (supplied : Bool) → CourseParamResult
  rejected : CourseParamResult

-- `resolveCourseValue`, with the supported years.
unfoldable pub resolve_course_value : List ℕ → Text → CourseParamResult
unfolding parse_strict_course is_listed
resolve_course_value years raw = elim (parse_strict_course raw) [
  | none ↦ rejected
  | some course ↦ if is_listed course years then accepted (some course) true else rejected
]

-- `resolveCourseParam`, with the values of `params.getAll("course")`.
unfoldable pub resolve_course_param : CourseSelection → List Text → CourseParamResult
unfolding resolve_course_value
resolve_course_param selection [] = accepted selection.default_year false
resolve_course_param selection (raw ∷ []) = resolve_course_value selection.years raw
resolve_course_param selection (_ ∷ _ ∷ _) = rejected

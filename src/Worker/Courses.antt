-- ===== src/Worker/Courses.antt =====
-- worker/src/courses.ts: the course years that accepted state is stored for.
use utm_curs_i_orar.Prelude.{
  ℕ, Bool, ◌||◌, Option, none, some, List, [], ◌∷◌, ltb, ◌==◌, any, if◌then◌else◌, length,
}
use utm_curs_i_orar.Text.{Text, text_eq, decimal}

abbrev pub supported_course_years : List ℕ
supported_course_years = 1 ∷ 2 ∷ []

find_year : Text → List ℕ → Option ℕ
unfolding text_eq
find_year raw [] = none
find_year raw (year ∷ years) = if text_eq raw (decimal year) then some year else find_year raw years

unfoldable pub parse_supported_course_year : Text → Option ℕ
unfolding find_year
parse_supported_course_year raw =
    if length raw == 0 || ltb 3 (length raw) then none else find_year raw supported_course_years

unfoldable pub is_supported_course_year : ℕ → Bool
is_supported_course_year year = any (λ y. y == year) supported_course_years

-- ===== src/Courses/Tests.antt =====
-- A deployment of src/lib/courses.ts that serves both courses.
use utm_curs_i_orar.Prelude.{ℕ, ◌≡◌, Option, refl, true, none, some, List, [], ◌∷◌}
use utm_curs_i_orar.Text.{codes}
use utm_curs_i_orar.Courses.{
  is_listed, CourseEnv, CourseSelection, configured, accepted, resolve_course_selection,
  resolve_course_param,
}
use utm_curs_i_orar.Courses.Reading.{IsUnique}
use utm_curs_i_orar.Courses.Serving.{resolve_course_param-IsServed}

abbrev known : List ℕ
known = 1 ∷ 2 ∷ []

abbrev env : CourseEnv
env = record {
  schedule_course_year = none;
  schedule_courses = some (codes " 2, 1");
  schedule_default_course = none;
}

abbrev both : CourseSelection
both = record { years = 2 ∷ 1 ∷ []; default_year = some 2 }

selected : resolve_course_selection env known ≡ configured both
unfolding resolve_course_selection
selected = refl

asked : resolve_course_param both (codes "1" ∷ []) ≡ accepted (some 1) true
unfolding resolve_course_param
asked = refl

resolve_course_param-IsServed_example :
    IsUnique (2 ∷ 1 ∷ [])
    × ((y : ℕ) → is_listed y (2 ∷ 1 ∷ []) ≡ true → is_listed y known ≡ true)
    × ((c : ℕ) × (Path (Option ℕ) (some 1) (some c))
        × (is_listed c (2 ∷ 1 ∷ []) ≡ true)
        × (is_listed c known ≡ true))
unfolding is_listed
resolve_course_param-IsServed_example =
    resolve_course_param-IsServed known env both (codes "1" ∷ []) (some 1) true (refl, (refl, _))
      (1, refl) selected asked

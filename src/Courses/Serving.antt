-- ===== src/Courses/Serving.antt =====
-- What src/lib/courses.ts serves.
use utm_curs_i_orar.Prelude.{
  ℕ, ◌≡◌, refl, sym, ◌∙◌, Bool, true, Option, none, some, List, [], ◌∷◌, inl, inr, Bool-cases,
  Option-cases, subst,
}
use utm_curs_i_orar.Text.{Text}
use utm_curs_i_orar.Courses.{
  legacy_variable, not_enabled, refused, configured, is_listed, parse_strict_course,
  parse_configured_list, CourseEnv, CourseSelection, first_year, has_legacy, default_among,
  with_default, enabled_years, resolve_course_selection, accepted, rejected, resolve_course_value,
  resolve_course_param,
}
use utm_curs_i_orar.Courses.Reading.{
  IsUnique, IsFilled, AreServable, Configured-cases, not_refused, first_listed,
  parse_configured_list-AreServable,
}

not_rejected : {course : Option ℕ} {supplied : Bool} → ¬ (rejected ≡ accepted course supplied)
not_rejected h = cc

enabled_years-AreServable :
    (known : List ℕ) (variable : Option Text) (years : List ℕ)
    → IsUnique known
    → IsFilled known
    → enabled_years known variable ≡ configured years
    → AreServable known years
unfolding enabled_years
enabled_years-AreServable known none years u k h =
    let same : known ≡ years = cc in subst (AreServable known) same ((λ y m. m), u, k)
enabled_years-AreServable known (some raw) years u k h =
    parse_configured_list-AreServable known raw years h

-- What holds of a selection, with the years it was made of.
abbrev Selects : CourseSelection → List ℕ → Type 0
Selects s years =
    Path (List ℕ) s.years years × ((d : ℕ) × (s.default_year ≡ some d) × (is_listed d years ≡ true))

default_among-Selects :
    (years requested : List ℕ) (s : CourseSelection)
    → default_among years requested ≡ configured s
    → Selects s years
unfolding default_among
default_among-Selects years [] s h = absurd (not_refused h)
default_among-Selects years (d ∷ []) s h = elim (Bool-cases (is_listed d years)) [
  | inl e ↦
      let built : configured (record { years = years; default_year = some d }) ≡ configured s =
        rw (e, default_among) at h in
      let same : record { years = years; default_year = some d } ≡ s = cc in
      subst (λ x. Selects x years) same (refl, (d, refl, e))
  | inr e ↦
      let bad : refused (not_enabled d) ≡ configured s = rw (e, default_among) at h in
      absurd (not_refused bad)
]
default_among-Selects years (d ∷ e ∷ more) s h = absurd (not_refused h)

with_default-Selects :
    (known : List ℕ) (variable : Option Text) (years : List ℕ) (s : CourseSelection)
    → IsFilled years
    → with_default known variable years ≡ configured s
    → Selects s years
unfolding with_default
with_default-Selects known none years s (d, first) h =
    let same : Path CourseSelection (record { years = years; default_year = first_year years }) s =
      cc in
    subst (λ x. Selects x years) same (refl, (d, first, first_listed years d first))
with_default-Selects known (some raw) years s filled h =
    elim (Configured-cases (parse_configured_list known raw)) [
      | inl (r, e) ↦
          let bad : refused r ≡ configured s = rw (e, with_default) at h in absurd (not_refused bad)
      | inr (requested, e) ↦
          let rest : default_among years requested ≡ configured s = rw (e, with_default) at h in
          default_among-Selects years requested s rest
    ]

resolve_course_selection-Selects :
    (known : List ℕ) (env : CourseEnv) (s : CourseSelection)
    → IsUnique known
    → IsFilled known
    → resolve_course_selection env known ≡ configured s
    → AreServable known s.years × Selects s s.years
unfolding resolve_course_selection
resolve_course_selection-Selects known env s u k h =
    elim (Bool-cases (has_legacy env.schedule_course_year)) [
      | inl e ↦
          let bad : refused legacy_variable ≡ configured s =
            rw (e, resolve_course_selection) at h in
          absurd (not_refused bad)
      | inr e ↦ elim (Configured-cases (enabled_years known env.schedule_courses)) [
        | inl (r, f) ↦
            let bad : refused r ≡ configured s = rw (e, resolve_course_selection, f) at h in
            absurd (not_refused bad)
        | inr (years, f) ↦
            let last : with_default known env.schedule_default_course years ≡ configured s =
              rw (e, resolve_course_selection, f) at h in
            let servable : AreServable known years =
              enabled_years-AreServable known env.schedule_courses years u k f in
            let selects : Selects s years =
              with_default-Selects known env.schedule_default_course years s servable.2 last in
            subst (λ ys. AreServable known ys × Selects s ys) (sym selects.0) (servable, selects)
      ]
    ]

abbrev IsServed : CourseSelection → Option ℕ → Type 0
IsServed s course = (c : ℕ) × (course ≡ some c) × (is_listed c s.years ≡ true)

resolve_course_value-IsServed :
    (s : CourseSelection) (raw : Text) (course : Option ℕ) (supplied : Bool)
    → resolve_course_value s.years raw ≡ accepted course supplied
    → IsServed s course
unfolding resolve_course_value
resolve_course_value-IsServed s raw course supplied h =
    elim (Option-cases (parse_strict_course raw)) [
      | inl e ↦
          let bad : rejected ≡ accepted course supplied = rw (e, resolve_course_value) at h in
          absurd (not_rejected bad)
      | inr (c, e) ↦ elim (Bool-cases (is_listed c s.years)) [
        | inl f ↦
            let built : accepted (some c) true ≡ accepted course supplied =
              rw (e, resolve_course_value, f) at h in
            let same : some c ≡ course = cc in (c, sym same, f)
        | inr f ↦
            let bad : rejected ≡ accepted course supplied = rw (e, resolve_course_value, f) at h in
            absurd (not_rejected bad)
      ]
    ]

resolve_course_param-accepted :
    (s : CourseSelection) (values : List Text) (course : Option ℕ) (supplied : Bool)
    → Selects s s.years
    → resolve_course_param s values ≡ accepted course supplied
    → IsServed s course
unfolding resolve_course_param
resolve_course_param-accepted s [] course supplied (_, (d, e, listed)) h =
    let same : s.default_year ≡ course = cc in (d, sym same ∙ e, listed)
resolve_course_param-accepted s (raw ∷ []) course supplied selects h =
    resolve_course_value-IsServed s raw course supplied h
resolve_course_param-accepted s (x ∷ y ∷ more) course supplied selects h = absurd (not_rejected h)

-- When the application implements at least one course year and lists none twice, and the
-- configuration is not refused: no year is enabled twice, every enabled year is one that the
-- application implements, and whatever values a request has for the course, one that is accepted
-- stands for a definite year that is enabled and implemented.
pub resolve_course_param-IsServed :
    (known : List ℕ) (env : CourseEnv) (s : CourseSelection) (values : List Text)
    (course : Option ℕ) (supplied : Bool)
    → IsUnique known
    → IsFilled known
    → resolve_course_selection env known ≡ configured s
    → resolve_course_param s values ≡ accepted course supplied
    → IsUnique s.years
      × ((y : ℕ) → is_listed y s.years ≡ true → is_listed y known ≡ true)
      × ((c : ℕ) × (course ≡ some c) × (is_listed c s.years ≡ true) × (is_listed c known ≡ true))
resolve_course_param-IsServed known env s values course supplied u k h asked =
    let (servable, selects) = resolve_course_selection-Selects known env s u k h in
    let (c, named, listed) = resolve_course_param-accepted s values course supplied selects asked in
    (servable.1, servable.0, (c, named, listed, servable.0 c listed))

-- ===== src/Courses/Reading.antt =====
-- The lists of course years that the configuration in src/lib/courses.ts reads.
use utm_curs_i_orar.Prelude.{
  ℕ, ◌≡◌, ◌⊎◌, refl, sym, ◌∙◌, true, false, none, some, List, [], ◌∷◌, inl, inr, Bool-cases,
  Option-cases, ◌==◌, ==_iff, subst, arith,
}
use utm_curs_i_orar.Text.{Text, trim}
use utm_curs_i_orar.Courses.{
  CourseConfigError, not_a_course, unknown_course, repeated_course, empty_list, Configured, refused,
  configured, is_listed, parse_strict_course, split_on, year_of, years_of, duplicate_from,
  without_duplicate, parse_configured_list, first_year,
}

-- No year stands twice.
abbrev pub IsUnique : List ℕ → Type 0
IsUnique [] = Unit {0}
IsUnique (year ∷ years) = (is_listed year years ≡ false) × IsUnique years

abbrev pub IsWithin : List ℕ → List ℕ → Type 0
IsWithin years known = (y : ℕ) → is_listed y years ≡ true → is_listed y known ≡ true

pub Configured-cases :
    {A : Type 0} (r : Configured A)
    → ((e : CourseConfigError) × (r ≡ refused e)) ⊎ ((a : A) × (r ≡ configured a))
Configured-cases (refused e) = inl (e, refl)
Configured-cases (configured a) = inr (a, refl)

pub not_refused : {A : Type 0} {e : CourseConfigError} {a : A} → ¬ (refused e ≡ configured a)
not_refused h = cc

List-cases : (xs : Text) → (xs ≡ []) ⊎ ((c : ℕ) × (cs : Text) × (xs ≡ c ∷ cs))
List-cases [] = inl refl
List-cases (c ∷ cs) = inr (c, cs, refl)

-- A year that was read is known.
year_of_known :
    (known : List ℕ) (token : Text) (year : ℕ)
    → year_of known token ≡ configured year
    → is_listed year known ≡ true
unfolding year_of
year_of_known known [] year h = absurd (not_refused h)
year_of_known known (c ∷ cs) year h = elim (Option-cases (parse_strict_course (c ∷ cs))) [
  | inl e ↦
      let bad : refused (not_a_course (c ∷ cs)) ≡ configured year = rw (e, year_of) at h in
      absurd (not_refused bad)
  | inr (read, e) ↦ elim (Bool-cases (is_listed read known)) [
    | inl listed ↦
        let same : configured read ≡ configured year = rw (e, year_of, listed) at h in
        let years : read ≡ year = cc in subst (λ y. is_listed y known ≡ true) years listed
    | inr f ↦
        let bad : refused (unknown_course read) ≡ configured year = rw (e, year_of, f) at h in
        absurd (not_refused bad)
  ]
]

listed_cons :
    (y year : ℕ) (years known : List ℕ)
    → is_listed year known ≡ true
    → IsWithin years known
    → is_listed y (year ∷ years) ≡ true
    → is_listed y known ≡ true
unfolding is_listed
listed_cons y year years known first within h = elim (Bool-cases (year == y)) [
  | inl e ↦ subst (λ z. is_listed z known ≡ true) ((==_iff year y).0 e) first
  | inr e ↦ let rest : is_listed y years ≡ true = rw e at h in within y rest
]

years_of-IsWithin :
    (known : List ℕ) (entries : List Text) (years : List ℕ)
    → years_of known entries ≡ configured years
    → IsWithin years known
unfolding years_of is_listed
years_of-IsWithin known [] years h =
    let same : [] ≡ years = cc in subst (λ ys. IsWithin ys known) same (λ y k. cc)
years_of-IsWithin known (entry ∷ entries) years h =
    elim (Configured-cases (year_of known (trim entry))) [
      | inl (e, f) ↦
          let bad : refused e ≡ configured years = rw (f, years_of) at h in absurd (not_refused bad)
      | inr (year, f) ↦ elim (Configured-cases (years_of known entries)) [
        | inl (e, g) ↦
            let bad : refused e ≡ configured years = rw (f, years_of, g) at h in
            absurd (not_refused bad)
        | inr (rest, g) ↦
            let built : configured (year ∷ rest) ≡ configured years = rw (f, years_of, g) at h in
            let same : year ∷ rest ≡ years = cc in
            subst (λ ys. IsWithin ys known) same
              (λ y k.
                listed_cons y year rest known (year_of_known known (trim entry) year f)
                  (years_of-IsWithin known entries rest g) k)
      ]
    ]

listed_own : (y : ℕ) (years : List ℕ) → is_listed y (y ∷ years) ≡ true
unfolding is_listed
listed_own y years = ground arith

listed_later :
    (z y : ℕ) (years : List ℕ) → is_listed z years ≡ true → is_listed z (y ∷ years) ≡ true
unfolding is_listed
listed_later z y years h = elim (Bool-cases (y == z)) [ inl e ↦ rw e refl | inr e ↦ rw e h ]

not_listed :
    (z y : ℕ) (years : List ℕ)
    → (y == z) ≡ false
    → is_listed z years ≡ false
    → is_listed z (y ∷ years) ≡ false
unfolding is_listed
not_listed z y years e h = rw e h

IsUnique-from :
    (seen years : List ℕ)
    → duplicate_from seen years ≡ none
    → IsUnique years × ((z : ℕ) → is_listed z seen ≡ true → is_listed z years ≡ false)
unfolding duplicate_from is_listed
IsUnique-from seen [] h = (_, λ z k. refl)
IsUnique-from seen (year ∷ years) h = elim (Bool-cases (is_listed year seen)) [
  | inl e ↦ let bad : some year ≡ none = rw (e, duplicate_from) at h in cc
  | inr e ↦
      let rest : duplicate_from (year ∷ seen) years ≡ none = rw (e, duplicate_from) at h in
      let (unique, apart) = IsUnique-from (year ∷ seen) years rest in
      (
        (apart year (listed_own year seen), unique),
        λ z k. elim (Bool-cases (year == z)) [
          | inl f ↦
              let here : is_listed year seen ≡ true =
                subst (λ y. is_listed y seen ≡ true) (sym ((==_iff year z).0 f)) k in
              let no : true ≡ false = sym here ∙ e in cc
          | inr f ↦ not_listed z year years f (apart z (listed_later z year seen k))
        ],
      )
]

without_duplicate-IsUnique :
    (read years : List ℕ)
    → without_duplicate read ≡ configured years
    → Path (List ℕ) read years × IsUnique years
unfolding without_duplicate
without_duplicate-IsUnique read years h = elim (Option-cases (duplicate_from [] read)) [
  | inl e ↦
      let built : configured read ≡ configured years = rw (e, without_duplicate) at h in
      let same : read ≡ years = cc in (same, subst IsUnique same (IsUnique-from [] read e).0)
  | inr (year, e) ↦
      let bad : refused (repeated_course year) ≡ configured years =
        rw (e, without_duplicate) at h in
      absurd (not_refused bad)
]

-- A list has a first year, which is listed.
abbrev pub IsFilled : List ℕ → Type 0
IsFilled years = (d : ℕ) × (first_year years ≡ some d)

pub first_listed : (years : List ℕ) (d : ℕ) → first_year years ≡ some d → is_listed d years ≡ true
first_listed [] d h = cc
first_listed (y ∷ years) d h =
    let same : y ≡ d = cc in subst (λ z. is_listed z (y ∷ years) ≡ true) same (listed_own y years)

years_of-IsFilled :
    (known : List ℕ) (entry : Text) (entries : List Text) (years : List ℕ)
    → years_of known (entry ∷ entries) ≡ configured years
    → IsFilled years
unfolding years_of
years_of-IsFilled known entry entries years h =
    elim (Configured-cases (year_of known (trim entry))) [
      | inl (e, f) ↦
          let bad : refused e ≡ configured years = rw (f, years_of) at h in absurd (not_refused bad)
      | inr (year, f) ↦ elim (Configured-cases (years_of known entries)) [
        | inl (e, g) ↦
            let bad : refused e ≡ configured years = rw (f, years_of, g) at h in
            absurd (not_refused bad)
        | inr (rest, g) ↦
            let built : configured (year ∷ rest) ≡ configured years = rw (f, years_of, g) at h in
            let same : year ∷ rest ≡ years = cc in subst IsFilled same (year, refl)
      ]
    ]

split_on_filled :
    (mark : ℕ) (raw : Text) → (t : Text) × (ts : List Text) × (split_on mark raw ≡ t ∷ ts)
unfolding split_on
split_on_filled mark [] = ([], [], refl)
split_on_filled mark (c ∷ cs) =
    let (t, ts, e) = split_on_filled mark cs in
    elim (Bool-cases (c == mark)) [
      | inl f ↦ ([], split_on mark cs, rw f refl)
      | inr f ↦ (c ∷ t, ts, rw (f, e) refl)
    ]

-- What holds of a list of years that was read.
abbrev pub AreServable : List ℕ → List ℕ → Type 0
AreServable known years = IsWithin years known × IsUnique years × IsFilled years

pub parse_configured_list-AreServable :
    (known : List ℕ) (raw : Text) (years : List ℕ)
    → parse_configured_list known raw ≡ configured years
    → AreServable known years
unfolding parse_configured_list
parse_configured_list-AreServable known raw years h = elim (List-cases (trim raw)) [
  | inl e ↦
      let bad : refused empty_list ≡ configured years = rw (e, parse_configured_list) at h in
      absurd (not_refused bad)
  | inr (c, cs, e) ↦ elim (Configured-cases (years_of known (split_on b',' raw))) [
    | inl (r, f) ↦
        let bad : refused r ≡ configured years = rw (e, parse_configured_list, f) at h in
        absurd (not_refused bad)
    | inr (read, f) ↦
        let last : without_duplicate read ≡ configured years =
          rw (e, parse_configured_list, f) at h in
        let (same, unique) = without_duplicate-IsUnique read years last in
        let (t, ts, g) = split_on_filled b',' raw in
        let filled : IsFilled read =
          years_of-IsFilled known t ts read (subst (λ x. years_of known x ≡ configured read) g f) in
        (
          subst (λ ys. IsWithin ys known) same (years_of-IsWithin known (split_on b',' raw) read f),
          unique,
          subst IsFilled same filled,
        )
  ]
]

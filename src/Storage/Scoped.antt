-- ===== src/Storage/Scoped.antt =====
-- A course's slot never holds another course's timetable (src/lib/storage/index.ts).
use utm_curs_i_orar.Prelude.{
  arith, ℕ, ◌≡◌, sym, ◌∙◌, ap, subst, Bool, true, false, ◌&&◌, ◌||◌, not, Option, none, some, List,
  [], ◌∷◌, inl, inr, Bool-cases, ◌==◌, ==_iff, if◌then◌else◌,
}
use utm_curs_i_orar.Models.{Schedule, SourceState}
use utm_curs_i_orar.Storage.{
  Disk, CourseCache, Storage, updated, write_schedule, write_state, legacy_state_matches, Held,
  adopt_state, adopt_schedule, adopt_legacy_cache, recover_from_db, keep_recovered, reload_schedule,
  reload_state, adopt_if_missing, recover_if_missing, ensure_loaded, held_at, loaded_at,
  get_current_schedule, get_source_state, save_state, state_or_empty, save_source_state,
  save_schedule, replace_current_schedule, reset_storage_cache, Operation, gets_schedule,
  gets_state, saves_state, replaces_schedule, resets, perform, performs,
}

-- Whatever timetable there is, is of the course.
abbrev pub IsOf : ℕ → Option Schedule → Type 0
IsOf c none = Unit
IsOf c (some s) = s.metadata.course_year ≡ c

abbrev pub IsScopedDisk : Disk → Type 0
IsScopedDisk d = (c : ℕ) → IsOf c (d.schedules c).content

abbrev IsScopedHeld : ℕ → Held → Type 0
IsScopedHeld c (cache, disk) = IsOf c cache.schedule × IsScopedDisk disk

-- Every file and every cached timetable is of its course. Nothing is asked of the legacy files.
pub record IsScoped (s : Storage) : Type 0 where
  pub disk : IsScopedDisk s.disk
  pub caches : (c : ℕ) → IsOf c (s.caches c).schedule

same_course : (a b : ℕ) → not (a == b) ≡ false → a ≡ b
same_course a b e = ground arith

write_schedule-scoped :
    (c : ℕ) (s : Schedule) (d : Disk)
    → s.metadata.course_year ≡ c
    → IsScopedDisk d
    → IsScopedDisk (write_schedule c s d)
unfolding write_schedule updated
write_schedule-scoped c s d e h i = elim (Bool-cases (i == c)) [
  | inl same ↦ rw same (e ∙ sym ((==_iff i c).0 same))
  | inr other ↦ rw other (h i)
]

write_state-scoped :
    (c : ℕ) (st : SourceState) (d : Disk) → IsScopedDisk d → IsScopedDisk (write_state c st d)
unfolding write_state
write_state-scoped c st d h = h

adopt_state-scoped :
    (c : ℕ) (s : Schedule) (st : Option SourceState) (cache : CourseCache) (disk : Disk)
    → IsScopedHeld c (cache, disk)
    → IsScopedHeld c (adopt_state c s st (cache, disk))
unfolding adopt_state
adopt_state-scoped c s none cache disk h = h
adopt_state-scoped c s (some st) cache disk (a, b) = elim (Bool-cases (legacy_state_matches s st)) [
  | inl e ↦ rw (e, adopt_state) (a, write_state-scoped c st disk b)
  | inr e ↦ rw (e, adopt_state) (a, b)
]

adopt_schedule-scoped :
    (c : ℕ) (o : Option Schedule) (cache : CourseCache) (disk : Disk)
    → IsScopedHeld c (cache, disk)
    → IsScopedHeld c (adopt_schedule c o (cache, disk))
unfolding adopt_schedule
adopt_schedule-scoped c none cache disk h = h
adopt_schedule-scoped c (some s) cache disk (a, b) =
    elim (Bool-cases (not (s.metadata.course_year == c))) [
      | inl e ↦ rw (e, adopt_schedule) (a, b)
      | inr e ↦
          let own : s.metadata.course_year ≡ c = same_course _ c e in
          rw (e, adopt_schedule)
            (adopt_state-scoped c s disk.legacy_state.content _ (write_schedule c s disk)
              (own, write_schedule-scoped c s disk own b))
    ]

recovered_own : (c : ℕ) (row : Option Schedule) → IsOf c (recover_from_db c row)
unfolding recover_from_db
recovered_own c none = tt
recovered_own c (some s) = elim (Bool-cases (not (s.metadata.course_year == c))) [
  | inl e ↦ rw (e, recover_from_db) tt
  | inr e ↦ rw (e, recover_from_db) (same_course _ c e)
]

keep_recovered-scoped :
    (c : ℕ) (o : Option Schedule) (cache : CourseCache) (disk : Disk)
    → IsOf c o
    → IsScopedHeld c (cache, disk)
    → IsScopedHeld c (keep_recovered c o (cache, disk))
unfolding keep_recovered
keep_recovered-scoped c none cache disk own h = h
keep_recovered-scoped c (some s) cache disk own (a, b) = (own, write_schedule-scoped c s disk own b)

-- The parts of `ensureLoaded`.
if_scoped :
    (c : ℕ) (b : Bool) (x y : Held)
    → IsScopedHeld c x
    → IsScopedHeld c y
    → IsScopedHeld c (if b then x else y)
if_scoped c true x y hx hy = hx
if_scoped c false x y hx hy = hy

reload_schedule-scoped :
    (c : ℕ) (held : Held) → IsScopedHeld c held → IsScopedHeld c (reload_schedule c held)
unfolding reload_schedule
reload_schedule-scoped c (cache, disk) (a, b) =
    if_scoped c (not cache.loaded || not ((disk.schedules c).mtime == cache.schedule_mtime)) _ _
      (b c, b) (a, b)

reload_state-scoped :
    (c : ℕ) (held : Held) → IsScopedHeld c held → IsScopedHeld c (reload_state c held)
unfolding reload_state
reload_state-scoped c (cache, disk) (a, b) =
    if_scoped c (not cache.loaded || not ((disk.states c).mtime == cache.state_mtime)) _ _ (a, b)
      (a, b)

adopt_if_missing-scoped :
    (c : ℕ) (held : Held) → IsScopedHeld c held → IsScopedHeld c (adopt_if_missing c held)
unfolding adopt_if_missing adopt_legacy_cache
adopt_if_missing-scoped c (cache, disk) (a, b) =
    if_scoped c _ _ (cache, disk)
      (adopt_schedule-scoped c disk.legacy_schedule.content (record cache { legacy_checked = true })
        disk (a, b))
      (a, b)

recover_if_missing-scoped :
    (row : Option Schedule) (c : ℕ) (held : Held)
    → IsScopedHeld c held
    → IsScopedHeld c (recover_if_missing row c held)
unfolding recover_if_missing
recover_if_missing-scoped row c (cache, disk) (a, b) =
    if_scoped c _ _ (cache, disk)
      (keep_recovered-scoped c (recover_from_db c row) cache disk (recovered_own c row) (a, b))
      (a, b)

ensure_loaded-scoped :
    (row : Option Schedule) (c : ℕ) (held : Held)
    → IsScopedHeld c held
    → IsScopedHeld c (ensure_loaded row c held)
unfolding ensure_loaded
ensure_loaded-scoped row c (cache, disk) h =
    let fresh : Held = reload_state c (reload_schedule c (cache, disk)) in
    let read : IsScopedHeld c fresh =
      reload_state-scoped c (reload_schedule c (cache, disk))
        (reload_schedule-scoped c (cache, disk) h) in
    let found : IsScopedHeld c (recover_if_missing row c (adopt_if_missing c fresh)) =
      recover_if_missing-scoped row c (adopt_if_missing c fresh)
        (adopt_if_missing-scoped c fresh read) in
    elim (Bool-cases (
      cache.loaded
      && (disk.schedules c).mtime == cache.schedule_mtime
      && (disk.states c).mtime == cache.state_mtime)) [
        | inl e ↦ rw (e, ensure_loaded) h
        | inr e ↦ rw (e, ensure_loaded) found
      ]

-- An operation that keeps its course's slot keeps the whole storage.
held_at-IsScoped :
    (c : ℕ) (f : Held → Held) (s : Storage)
    → ((held : Held) → IsScopedHeld c held → IsScopedHeld c (f held))
    → IsScoped s
    → IsScoped (held_at c f s)
unfolding held_at updated
held_at-IsScoped c f s keeps i =
    let (own, disk) = keeps (s.caches c, s.disk) (i.caches c, i.disk) in
    record {
      disk = disk;
      caches = λ d. elim (Bool-cases (d == c)) [
        | inl same ↦ rw same (
            subst (λ e. IsOf e (f (s.caches c, s.disk)).0.schedule) (sym ((==_iff d c).0 same)) own)
        | inr other ↦ rw other (i.caches d)
      ];
    }

first_of : Option Schedule → Option (Option Schedule × Storage) → Option Schedule
first_of z none = z
first_of z (some (a, s)) = a

second_of : Storage → Option (Option Schedule × Storage) → Storage
second_of z none = z
second_of z (some (a, s)) = s

none-some :
    (b : Option Schedule) (t : Storage)
    → ¬ (Path (Option (Option Schedule × Storage)) none (some (b, t)))
none-some b t e = cc

same_pair :
    (a b : Option Schedule) (s t : Storage)
    → Path (Option (Option Schedule × Storage)) (some (a, s)) (some (b, t))
    → (a ≡ b) × (s ≡ t)
unfolding first_of second_of
same_pair a b s t e = (ap (first_of a) e, ap (second_of s) e)

module _ (supported : ℕ → Bool) (database : ℕ → Option Schedule) where
  loaded-IsScoped : (c : ℕ) (s : Storage) → IsScoped s → IsScoped (loaded_at supported database c s)
  loaded-IsScoped c s i =
      held_at-IsScoped c (ensure_loaded (database c) c) s (ensure_loaded-scoped (database c) c) i

  saved_state : (c : ℕ) → (SourceState → SourceState) → Storage → SourceState
  saved_state c patch s =
      patch (state_or_empty supported database ((loaded_at supported database c s).caches c).state)

  save_state-scoped :
      (c : ℕ) (st : SourceState) (held : Held)
      → IsScopedHeld c held
      → IsScopedHeld c (save_state supported database c st held)
  unfolding save_state
  save_state-scoped c st (cache, disk) (a, b) = (a, write_state-scoped c st disk b)

  save_schedule-scoped :
      (c : ℕ) (sch : Schedule) (held : Held)
      → sch.metadata.course_year ≡ c
      → IsScopedHeld c held
      → IsScopedHeld c (save_schedule supported database c sch held)
  unfolding save_schedule
  save_schedule-scoped c sch (cache, disk) own (a, b) =
      (own, write_schedule-scoped c sch disk own b)

  perform-IsScoped :
      (op : Operation supported database) (s : Storage)
      → IsScoped s
      → IsScoped (perform supported database op s)
  unfolding perform get_current_schedule get_source_state save_source_state replace_current_schedule
      reset_storage_cache saved_state
  perform-IsScoped (gets_schedule c) s i = elim (Bool-cases (supported c)) [
    | inl e ↦ rw e (loaded-IsScoped c s i)
    | inr e ↦ rw e i
  ]
  perform-IsScoped (gets_state c) s i = elim (Bool-cases (supported c)) [
    | inl e ↦ rw e (loaded-IsScoped c s i)
    | inr e ↦ rw e i
  ]
  perform-IsScoped (saves_state c patch) s i = elim (Bool-cases (supported c)) [
    | inl e ↦ rw e (
        held_at-IsScoped c (save_state supported database c (saved_state c patch s))
          (loaded_at supported database c s) (save_state-scoped c (saved_state c patch s))
          (loaded-IsScoped c s i))
    | inr e ↦ rw e i
  ]
  perform-IsScoped (replaces_schedule c sch) s i = elim (Bool-cases (supported c)) [
    | inr e ↦ rw e i
    | inl e ↦ elim (Bool-cases (not (sch.metadata.course_year == c))) [
      | inl foreign ↦ rw (e, foreign) i
      | inr own ↦
          let same : sch.metadata.course_year ≡ c = same_course _ c own in
          rw (e, own)
            (held_at-IsScoped c (save_schedule supported database c sch)
              (loaded_at supported database c s) (λ held h. save_schedule-scoped c sch held same h)
              (loaded-IsScoped c s i))
    ]
  ]
  perform-IsScoped resets s i = record { disk = i.disk; caches = λ c. tt }

  performs-IsScoped :
      (ops : List (Operation supported database)) (s : Storage)
      → IsScoped s
      → IsScoped (performs supported database ops s)
  unfolding performs
  performs-IsScoped [] s i = i
  performs-IsScoped (op ∷ ops) s i = performs-IsScoped ops _ (perform-IsScoped op s i)

  -- From files that each hold only their own course's timetable, whatever the legacy files and the
  -- database hold, and after any sequence of operations on any courses: the timetable that is
  -- answered for a course is that course's, and every file and cache still holds only its own.
  pub get_current_schedule-IsScoped :
      (ops : List (Operation supported database)) (s t : Storage) (c : ℕ) (answer : Option Schedule)
      → IsScoped s
      → get_current_schedule supported database c (performs supported database ops s)
        ≡ some (answer, t)
      → IsOf c answer × IsScoped t
  unfolding get_current_schedule
  get_current_schedule-IsScoped ops s t c answer i e =
      let before : IsScoped (performs supported database ops s) = performs-IsScoped ops s i in
      let after : Storage = loaded_at supported database c (performs supported database ops s) in
      let made : IsScoped after = loaded-IsScoped c (performs supported database ops s) before in
      elim (Bool-cases (supported c)) [
        | inr refused ↦ absurd (none-some answer t (rw refused at e))
        | inl fine ↦
            let (x, y) = same_pair (after.caches c).schedule answer after t (rw fine at e) in
            (subst (λ o. IsOf c o) x (made.caches c), subst IsScoped y made)
      ]

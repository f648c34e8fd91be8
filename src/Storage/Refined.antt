-- ===== src/Storage/Refined.antt =====
-- The storage against a plain record of each course, with no files and no caches
-- (src/lib/storage/index.ts).
use utm_curs_i_orar.Prelude.{
  ℕ, ◌≡◌, refl, sym, ◌∙◌, ap, subst, Bool, true, false, ◌&&◌, Option, some, List, [], ◌∷◌, inl, inr,
  Bool-cases, ◌==◌, ==_iff, if◌then◌else◌,
}
use utm_curs_i_orar.Models.{Schedule, SourceState}
use utm_curs_i_orar.Storage.{
  Disk, CourseCache, Storage, updated, write_schedule, write_state, Held, ensure_loaded, held_at,
  loaded_at, get_current_schedule, get_source_state, save_state, state_or_empty, save_source_state,
  save_schedule, replace_current_schedule, reset_storage_cache, Operation, gets_schedule,
  gets_state, saves_state, replaces_schedule, resets, perform, performs,
}
use utm_curs_i_orar.Storage.Backed.{Kept, IsBacked, IsLoaded, loaded-IsBacked, ensure_loaded_backed}
use utm_curs_i_orar.Storage.Apart.{
  AreSame, write_schedule_apart, write_state_apart, ensure_loaded_apart,
}

abbrev pub IsStored : ℕ → Kept → Storage → Type 0
IsStored c k s = IsBacked c k (s.caches c) s.disk

self : (c : ℕ) → (c == c) ≡ true
self c = (==_iff c c).1 refl

same_files :
    (c : ℕ) (k : Kept) (cache : CourseCache) (disk after : Disk)
    → AreSame c disk after
    → IsBacked c k cache disk
    → IsBacked c k cache after
same_files c k cache disk after (schedules, states) b = record {
  schedule_file = ap (λ f. f.content) schedules ∙ b.schedule_file;
  state_file = ap (λ f. f.content) states ∙ b.state_file;
  schedule_cache =
      λ e f. b.schedule_cache e (sym (ap (λ x. x.mtime == cache.schedule_mtime) schedules) ∙ f);
  state_cache = λ e f. b.state_cache e (sym (ap (λ x. x.mtime == cache.state_mtime) states) ∙ f);
}

held_at_own :
    (c : ℕ) (k : Kept) (f : Held → Held) (s : Storage)
    → IsBacked c k (f (s.caches c, s.disk)).0 (f (s.caches c, s.disk)).1
    → IsStored c k (held_at c f s)
unfolding held_at updated
held_at_own c k f s b = rw (self c) b

held_at_other :
    (c d : ℕ) (k : Kept) (f : Held → Held) (s : Storage)
    → (c == d) ≡ false
    → AreSame c s.disk (f (s.caches d, s.disk)).1
    → IsStored c k s
    → IsStored c k (held_at d f s)
unfolding held_at updated
held_at_other c d k f s other same b =
    rw other (same_files c k (s.caches c) s.disk (f (s.caches d, s.disk)).1 same b)

module _ (supported : ℕ → Bool) (database : ℕ → Option Schedule) where
  -- What an operation does to the record of a course.
  abbrev pub keep : ℕ → Operation supported database → Kept → Kept
  keep c (gets_schedule d) k = k
  keep c (gets_state d) k = k
  keep c (saves_state d patch) k =
      if c == d
      then record k { state = some (patch (state_or_empty supported database k.state)) }
      else k
  keep c (replaces_schedule d sch) k =
      if c == d && sch.metadata.course_year == c then record k { schedule = sch } else k
  keep c resets k = k

  abbrev pub keeps : ℕ → List (Operation supported database) → Kept → Kept
  keeps c [] k = k
  keeps c (op ∷ ops) k = keeps c ops (keep c op k)

  -- Loading the course itself fills its cache and leaves its files.
  abbrev Filled : ℕ → Kept → Storage → Type 0
  Filled c k s = IsStored c k s × IsLoaded k (s.caches c)

  loaded_own :
      (c : ℕ) (k : Kept) (s : Storage)
      → IsStored c k s
      → Filled c k (loaded_at supported database c s)
  unfolding held_at updated
  loaded_own c k s b =
      let (after, (e, loaded)) = ensure_loaded_backed (database c) c k (s.caches c) s.disk b in
      let backed : IsBacked c k after s.disk =
        loaded-IsBacked c k (s.caches c) after s.disk b loaded in
      rw (self c)
        (subst (λ (h : Held). IsBacked c k h.0 h.1 × IsLoaded k h.0) (sym e) (backed, loaded))

  loaded_any :
      (c d : ℕ) (k : Kept) (s : Storage)
      → IsStored c k s
      → IsStored c k (loaded_at supported database d s)
  loaded_any c d k s b = elim (Bool-cases (c == d)) [
    | inl e ↦
        subst (λ x. IsStored c k (loaded_at supported database x s)) ((==_iff c d).0 e)
          (loaded_own c k s b).0
    | inr e ↦
        held_at_other c d k (ensure_loaded (database d) d) s e
          (ensure_loaded_apart c d e (database d) (s.caches d) s.disk) b
  ]

  save_state_own :
      (c : ℕ) (k : Kept) (st : SourceState) (s : Storage)
      → Filled c k s
      → IsStored c (record k { state = some st }) (held_at c (save_state supported database c st) s)
  unfolding save_state write_state updated
  save_state_own c k st s (b, (schedule, state)) =
      held_at_own c (record k { state = some st }) (save_state supported database c st) s
        (record {
          schedule_file = b.schedule_file;
          state_file = rw (self c) refl;
          schedule_cache = λ e f. schedule;
          state_cache = λ e f. refl;
        })

  save_schedule_own :
      (c : ℕ) (k : Kept) (sch : Schedule) (s : Storage)
      → Filled c k s
      → IsStored c
          (record k { schedule = sch })
          (held_at c (save_schedule supported database c sch) s)
  unfolding save_schedule write_schedule updated
  save_schedule_own c k sch s (b, (schedule, state)) =
      held_at_own c (record k { schedule = sch }) (save_schedule supported database c sch) s
        (record {
          schedule_file = rw (self c) refl;
          state_file = b.state_file;
          schedule_cache = λ e f. refl;
          state_cache = λ e f. state;
        })

  saves_own :
      (c : ℕ) (patch : SourceState → SourceState) (k : Kept) (s : Storage)
      → supported c ≡ true
      → IsStored c k s
      → IsStored c
          (record k { state = some (patch (state_or_empty supported database k.state)) })
          (perform supported database (saves_state c patch) s)
  unfolding perform save_source_state
  saves_own c patch k s served b =
      let filled : Filled c k (loaded_at supported database c s) = loaded_own c k s b in
      let next : ((loaded_at supported database c s).caches c).state ≡ k.state = filled.1.1 in
      rw served (
        subst
          (λ st.
            IsStored c
              (record k { state = some (patch (state_or_empty supported database k.state)) })
              (held_at c
                (save_state supported database c (patch (state_or_empty supported database st)))
                (loaded_at supported database c s)))
          (sym next)
          (save_state_own c k (patch (state_or_empty supported database k.state))
            (loaded_at supported database c s) filled))

  keep_saves :
      (c : ℕ) (patch : SourceState → SourceState) (k : Kept)
      → keep c (saves_state c patch) k
        ≡ record k { state = some (patch (state_or_empty supported database k.state)) }
  keep_saves c patch k = rw (self c) refl

  keep_replaces :
      (c : ℕ) (sch : Schedule) (k : Kept)
      → keep c (replaces_schedule c sch) k
        ≡ (if sch.metadata.course_year == c then record k { schedule = sch } else k)
  keep_replaces c sch k = rw (self c) refl

  saves_any :
      (c d : ℕ) (patch : SourceState → SourceState) (k : Kept) (s : Storage)
      → supported c ≡ true
      → IsStored c k s
      → IsStored c
          (keep c (saves_state d patch) k)
          (perform supported database (saves_state d patch) s)
  unfolding perform save_source_state save_state
  saves_any c d patch k s served b = elim (Bool-cases (c == d)) [
    | inl e ↦
        subst
          (λ x.
            IsStored c (keep c (saves_state x patch) k)
              (perform supported database (saves_state x patch) s))
          ((==_iff c d).0 e)
          (subst (λ x. IsStored c x (perform supported database (saves_state c patch) s))
            (sym (keep_saves c patch k)) (saves_own c patch k s served b))
    | inr e ↦ elim (Bool-cases (supported d)) [
      | inr refused ↦ rw (e, refused) b
      | inl fine ↦
          rw (e, fine)
            (held_at_other c d k
              (save_state supported database d (
                patch (
                  state_or_empty supported database
                    ((loaded_at supported database d s).caches d).state)))
              (loaded_at supported database d s) e
              (write_state_apart c d e _ (loaded_at supported database d s).disk)
              (loaded_any c d k s b))
    ]
  ]

  replaces_own :
      (c : ℕ) (sch : Schedule) (k : Kept) (s : Storage)
      → supported c ≡ true
      → IsStored c k s
      → IsStored c
          (if sch.metadata.course_year == c then record k { schedule = sch } else k)
          (perform supported database (replaces_schedule c sch) s)
  unfolding perform replace_current_schedule
  replaces_own c sch k s served b = elim (Bool-cases (sch.metadata.course_year == c)) [
    | inl e ↦
        rw (e, served)
          (save_schedule_own c k sch (loaded_at supported database c s) (loaded_own c k s b))
    | inr e ↦ rw (e, served) b
  ]

  replaces_any :
      (c d : ℕ) (sch : Schedule) (k : Kept) (s : Storage)
      → supported c ≡ true
      → IsStored c k s
      → IsStored c
          (keep c (replaces_schedule d sch) k)
          (perform supported database (replaces_schedule d sch) s)
  unfolding perform replace_current_schedule save_schedule
  replaces_any c d sch k s served b = elim (Bool-cases (c == d)) [
    | inl e ↦
        subst
          (λ x.
            IsStored c (keep c (replaces_schedule x sch) k)
              (perform supported database (replaces_schedule x sch) s))
          ((==_iff c d).0 e)
          (subst (λ x. IsStored c x (perform supported database (replaces_schedule c sch) s))
            (sym (keep_replaces c sch k)) (replaces_own c sch k s served b))
    | inr e ↦ elim (Bool-cases (supported d)) [
      | inr refused ↦ rw (e, refused) b
      | inl fine ↦ elim (Bool-cases (sch.metadata.course_year == d)) [
        | inr foreign ↦ rw (e, fine, foreign) b
        | inl own ↦
            rw (e, fine, own)
              (held_at_other c d k (save_schedule supported database d sch)
                (loaded_at supported database d s) e
                (write_schedule_apart c d e sch (loaded_at supported database d s).disk)
                (loaded_any c d k s b))
      ]
    ]
  ]

  perform-IsStored :
      (c : ℕ) (op : Operation supported database) (k : Kept) (s : Storage)
      → supported c ≡ true
      → IsStored c k s
      → IsStored c (keep c op k) (perform supported database op s)
  unfolding perform get_current_schedule get_source_state reset_storage_cache
  perform-IsStored c (gets_schedule d) k s served b = elim (Bool-cases (supported d)) [
    | inl e ↦ rw e (loaded_any c d k s b)
    | inr e ↦ rw e b
  ]
  perform-IsStored c (gets_state d) k s served b = elim (Bool-cases (supported d)) [
    | inl e ↦ rw e (loaded_any c d k s b)
    | inr e ↦ rw e b
  ]
  perform-IsStored c (saves_state d patch) k s served b = saves_any c d patch k s served b
  perform-IsStored c (replaces_schedule d sch) k s served b = replaces_any c d sch k s served b
  perform-IsStored c resets k s served b = record {
    schedule_file = b.schedule_file;
    state_file = b.state_file;
    schedule_cache = λ e f. cc;
    state_cache = λ e f. cc;
  }

  performs-IsStored :
      (c : ℕ) (ops : List (Operation supported database)) (k : Kept) (s : Storage)
      → supported c ≡ true
      → IsStored c k s
      → IsStored c (keeps c ops k) (performs supported database ops s)
  unfolding performs
  performs-IsStored c [] k s served b = b
  performs-IsStored c (op ∷ ops) k s served b =
      performs-IsStored c ops (keep c op k) (perform supported database op s) served
        (perform-IsStored c op k s served b)

  -- For a supported course whose files hold a timetable, and a state or none, with a cache that agrees
  -- with them where it is loaded and as new: after any sequence of operations on any courses, caches
  -- forgotten in between included, what is answered for the course is what a plain record of it
  -- holds, which only the accepted replacements and the saved patches for this course have changed,
  -- whatever the legacy files and the database hold.
  pub get_current_schedule-performs :
      (c : ℕ) (ops : List (Operation supported database)) (k : Kept) (s : Storage)
      → supported c ≡ true
      → IsStored c k s
      → ((t : Storage) × Path
            (Option (Option Schedule × Storage))
            (get_current_schedule supported database c (performs supported database ops s))
            (some (some (keeps c ops k).schedule, t)))
        × ((u : Storage) × Path
              (Option (SourceState × Storage))
              (get_source_state supported database c (performs supported database ops s))
              (some (state_or_empty supported database (keeps c ops k).state, u)))
  unfolding get_current_schedule get_source_state
  get_current_schedule-performs c ops k s served b =
      let after : Storage = loaded_at supported database c (performs supported database ops s) in
      let filled : Filled c (keeps c ops k) after =
        loaded_own c (keeps c ops k) (performs supported database ops s)
          (performs-IsStored c ops k s served b) in
      (
        (after, rw served (ap (λ x. some (x, after)) filled.1.0)),
        (after, rw served (ap (λ x. some (state_or_empty supported database x, after)) filled.1.1)),
      )

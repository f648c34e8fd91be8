-- ===== src/Storage/Backed.antt =====
-- A course whose timetable is stored: what loading it gives, and that it writes nothing
-- (src/lib/storage/index.ts).
use utm_curs_i_orar.Prelude.{
  ℕ, ◌≡◌, refl, sym, ◌∙◌, ap, Bool, true, false, ◌&&◌, ◌||◌, not, Option, some, inl, inr,
  Bool-cases, and_true, ◌==◌,
}
use utm_curs_i_orar.Models.{Schedule, SourceState}
use utm_curs_i_orar.Storage.{
  Disk, CourseCache, Held, is_missing, reload_schedule, reload_state, adopt_if_missing,
  recover_if_missing, mark_loaded, ensure_loaded,
}

-- What is stored for a course, with nothing said of caches.
pub record Kept : Type 0 where
  pub schedule : Schedule
  pub state : Option SourceState

-- The files hold it, and so does a cache that is loaded and as new as its file.
pub record IsBacked (c : ℕ) (k : Kept) (cache : CourseCache) (disk : Disk) : Type 0 where
  pub schedule_file : (disk.schedules c).content ≡ some k.schedule
  pub state_file : (disk.states c).content ≡ k.state
  pub schedule_cache :
      cache.loaded ≡ true
      → ((disk.schedules c).mtime == cache.schedule_mtime) ≡ true
      → cache.schedule ≡ some k.schedule
  pub state_cache :
      cache.loaded ≡ true
      → ((disk.states c).mtime == cache.state_mtime) ≡ true
      → cache.state ≡ k.state

abbrev pub IsLoaded : Kept → CourseCache → Type 0
IsLoaded k cache = (cache.schedule ≡ some k.schedule) × (cache.state ≡ k.state)

pub loaded-IsBacked :
    (c : ℕ) (k : Kept) (cache after : CourseCache) (disk : Disk)
    → IsBacked c k cache disk
    → IsLoaded k after
    → IsBacked c k after disk
loaded-IsBacked c k cache after disk b (schedule, state) = record {
  schedule_file = b.schedule_file;
  state_file = b.state_file;
  schedule_cache = λ e f. schedule;
  state_cache = λ e f. state;
}

not_or : (a b : Bool) → (not a || not b) ≡ false → (a ≡ true) × (b ≡ true)
not_or true true h = (refl, refl)
not_or true false h = cc
not_or false b h = cc

-- A cache with the timetable, and the rest as before.
abbrev Reloaded : ℕ → Kept → CourseCache → Disk → CourseCache → Type 0
Reloaded c k cache disk after =
    Path Held (reload_schedule c (cache, disk)) (after, disk)
    × (after.schedule ≡ some k.schedule)
    × (after.loaded ≡ cache.loaded)
    × (after.state ≡ cache.state)
    × (after.state_mtime ≡ cache.state_mtime)

reload_schedule_backed :
    (c : ℕ) (k : Kept) (cache : CourseCache) (disk : Disk)
    → IsBacked c k cache disk
    → (after : CourseCache) × Reloaded c k cache disk after
unfolding reload_schedule
reload_schedule_backed c k cache disk b =
    elim (Bool-cases (not cache.loaded || not ((disk.schedules c).mtime == cache.schedule_mtime))) [
      | inl e ↦ (
        record cache {
          schedule = (disk.schedules c).content;
          schedule_mtime = (disk.schedules c).mtime;
        },
        (rw e refl, b.schedule_file, refl, refl, refl),
      )
      | inr e ↦
          let (loaded, same) = not_or cache.loaded _ e in
          (cache, (rw e refl, b.schedule_cache loaded same, refl, refl, refl))
    ]

reload_state_backed :
    (c : ℕ) (k : Kept) (cache : CourseCache) (disk : Disk)
    → (disk.states c).content ≡ k.state
    → (cache.loaded ≡ true
        → ((disk.states c).mtime == cache.state_mtime) ≡ true
        → cache.state ≡ k.state)
    → cache.schedule ≡ some k.schedule
    → (after : CourseCache) × Path Held (reload_state c (cache, disk)) (after, disk)
      × IsLoaded k after
unfolding reload_state
reload_state_backed c k cache disk file cached schedule =
    elim (Bool-cases (not cache.loaded || not ((disk.states c).mtime == cache.state_mtime))) [
      | inl e ↦ (
        record cache { state = (disk.states c).content; state_mtime = (disk.states c).mtime },
        rw e refl,
        (schedule, file),
      )
      | inr e ↦
          let (loaded, same) = not_or cache.loaded _ e in
          (cache, rw e refl, (schedule, cached loaded same))
    ]

adopt_skips :
    (c : ℕ) (cache : CourseCache) (disk : Disk)
    → is_missing cache.schedule ≡ false
    → adopt_if_missing c (cache, disk) ≡ (cache, disk)
unfolding adopt_if_missing
adopt_skips c cache disk e = rw e refl

recover_skips :
    (row : Option Schedule) (c : ℕ) (cache : CourseCache) (disk : Disk)
    → is_missing cache.schedule ≡ false
    → recover_if_missing row c (cache, disk) ≡ (cache, disk)
unfolding recover_if_missing
recover_skips row c cache disk e = rw e refl

present :
    (cache : CourseCache) (s : Schedule)
    → cache.schedule ≡ some s
    → is_missing cache.schedule ≡ false
present cache s e = ap is_missing e

-- What loading a course with a stored timetable gives.
abbrev pub LoadedAs : Option Schedule → ℕ → Kept → CourseCache → Disk → CourseCache → Type 0
LoadedAs row c k cache disk after =
    Path Held (ensure_loaded row c (cache, disk)) (after, disk) × IsLoaded k after

load_slowly :
    (row : Option Schedule) (c : ℕ) (k : Kept) (cache : CourseCache) (disk : Disk)
    → IsBacked c k cache disk
    → (after : CourseCache) × Path Held
        (recover_if_missing row c
          (adopt_if_missing c (reload_state c (reload_schedule c (cache, disk)))))
        (after, disk)
      × IsLoaded k after
load_slowly row c k cache disk b =
    let (first, (read, schedule, loaded, state, mtime)) = reload_schedule_backed c k cache disk b in
    let cached : first.loaded ≡ true
        → ((disk.states c).mtime == first.state_mtime) ≡ true
        → first.state ≡ k.state =
      λ e f.
        state
        ∙ b.state_cache (sym loaded ∙ e) (sym (ap (λ m. (disk.states c).mtime == m) mtime) ∙ f) in
    let (second, both, whole) = reload_state_backed c k first disk b.state_file cached schedule in
    let there : is_missing second.schedule ≡ false = present second k.schedule whole.0 in
    let chain : Path Held
        (recover_if_missing row c
          (adopt_if_missing c (reload_state c (reload_schedule c (cache, disk)))))
        (second, disk) =
      ap (λ h. recover_if_missing row c (adopt_if_missing c (reload_state c h))) read
      ∙ ap (λ h. recover_if_missing row c (adopt_if_missing c h)) both
      ∙ ap (recover_if_missing row c) (adopt_skips c second disk there)
      ∙ recover_skips row c second disk there in
    (second, chain, whole)

pub ensure_loaded_backed :
    (row : Option Schedule) (c : ℕ) (k : Kept) (cache : CourseCache) (disk : Disk)
    → IsBacked c k cache disk
    → (after : CourseCache) × LoadedAs row c k cache disk after
unfolding ensure_loaded
ensure_loaded_backed row c k cache disk b =
    elim (Bool-cases (
      cache.loaded
      && (disk.schedules c).mtime == cache.schedule_mtime
      && (disk.states c).mtime == cache.state_mtime)) [
        | inl e ↦
            let (rest, state) = and_true e in
            let (loaded, schedule) = and_true rest in
            (cache, (rw e refl, (b.schedule_cache loaded schedule, b.state_cache loaded state)))
        | inr e ↦
            let (after, chain, whole) = load_slowly row c k cache disk b in
            (record after { loaded = true }, (rw e (ap mark_loaded chain), whole))
      ]

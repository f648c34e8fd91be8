-- ===== src/Storage.antt =====
-- src/lib/storage/index.ts: the timetable and the update state of each course, in files with a
-- cache in memory. Every write gives its file a later modification time than any before. The
-- history in the database is written through a mapper and left out; what it gives back for a
-- course is an argument, none where there is no database or no row that parses.
pub mod Scoped
pub mod Backed
pub mod Apart
pub mod Refined
mod Tests
use utm_curs_i_orar.Prelude.{
  ℕ, suc, ◌+◌, Bool, true, false, ◌&&◌, ◌||◌, not, Option, none, some, List, [], ◌∷◌, ◌==◌, length,
  if◌then◌else◌,
}
use utm_curs_i_orar.Text.{Text, text_eq, option_eq}
use utm_curs_i_orar.Models.{Schedule, SourceState, create_empty_source_state}

-- A file: what parses of it, and its modification time, 0 where there is none.
pub record File (A : Type 0) : Type 0 where
  pub content : Option A
  pub mtime : ℕ

pub record Disk : Type 0 where
  pub schedules : ℕ → File Schedule
  pub states : ℕ → File SourceState
  pub legacy_schedule : File Schedule
  pub legacy_state : File SourceState
  pub clock : ℕ

pub record CourseCache : Type 0 where
  pub schedule : Option Schedule
  pub state : Option SourceState
  pub loaded : Bool
  pub legacy_checked : Bool
  pub schedule_mtime : ℕ
  pub state_mtime : ℕ

-- The files and the caches, where a course without a cache has a fresh one.
pub record Storage : Type 0 where
  pub disk : Disk
  pub caches : ℕ → CourseCache

abbrev pub fresh_cache : CourseCache
fresh_cache = record {
  schedule = none;
  state = none;
  loaded = false;
  legacy_checked = false;
  schedule_mtime = 0;
  state_mtime = 0;
}

unfoldable pub updated {ℓ} : {A : Type ℓ} → (ℕ → A) → ℕ → A → ℕ → A
updated f c a d = if d == c then a else f d

-- `atomicWrite` of the two files of a course.
unfoldable pub write_schedule : ℕ → Schedule → Disk → Disk
unfolding updated
write_schedule c s d = record d {
  schedules = updated d.schedules c (record { content = some s; mtime = suc d.clock });
  clock = suc d.clock;
}

unfoldable pub write_state : ℕ → SourceState → Disk → Disk
unfolding updated
write_state c s d = record d {
  states = updated d.states c (record { content = some s; mtime = suc d.clock });
  clock = suc d.clock;
}

abbrev non_empty : Option Text → Bool
non_empty none = false
non_empty (some t) = not (length t == 0)

-- `legacyStateIdentity`: the hash decides, and without one the URL.
unfoldable pub legacy_state_matches : Schedule → SourceState → Bool
legacy_state_matches s st =
    if non_empty st.current_pdf_hash
    then option_eq st.current_pdf_hash s.metadata.source_pdf_hash
    else if non_empty st.current_pdf_url
    then option_eq st.current_pdf_url s.metadata.source_pdf_url
    else false

-- What an operation has for its course: the cache and the disk.
abbrev pub Held : Type 0
Held = CourseCache × Disk

unfoldable pub adopt_state : ℕ → Schedule → Option SourceState → Held → Held
unfolding write_state
adopt_state c s none held = held
adopt_state c s (some st) (cache, disk) =
    if legacy_state_matches s st
    then (let after : Disk = write_state c st disk in
        (record cache { state = some st; state_mtime = (after.states c).mtime }, after))
    else (cache, disk)

unfoldable pub adopt_schedule : ℕ → Option Schedule → Held → Held
unfolding adopt_state write_schedule
adopt_schedule c none held = held
adopt_schedule c (some s) (cache, disk) =
    if not (s.metadata.course_year == c)
    then (cache, disk)
    else let after : Disk = write_schedule c s disk in
      adopt_state c s disk.legacy_state.content
        (record cache { schedule = some s; schedule_mtime = (after.schedules c).mtime }, after)

-- `adoptLegacyCache`
unfoldable pub adopt_legacy_cache : ℕ → Held → Held
unfolding adopt_schedule
adopt_legacy_cache c (cache, disk) =
    adopt_schedule c disk.legacy_schedule.content (record cache { legacy_checked = true }, disk)

-- `recoverFromDb`: a row with another course's payload is no source.
unfoldable pub recover_from_db : ℕ → Option Schedule → Option Schedule
recover_from_db c none = none
recover_from_db c (some s) = if not (s.metadata.course_year == c) then none else some s

unfoldable pub keep_recovered : ℕ → Option Schedule → Held → Held
unfolding write_schedule
keep_recovered c none held = held
keep_recovered c (some s) (cache, disk) =
    let after : Disk = write_schedule c s disk in
    (record cache { schedule = some s; schedule_mtime = (after.schedules c).mtime }, after)

abbrev is_missing : Option Schedule → Bool
is_missing none = true
is_missing (some s) = false

unfoldable pub reload_schedule : ℕ → Held → Held
reload_schedule c (cache, disk) =
    if not cache.loaded || not ((disk.schedules c).mtime == cache.schedule_mtime)
    then (
      record cache {
        schedule = (disk.schedules c).content;
        schedule_mtime = (disk.schedules c).mtime;
      },
      disk,
    )
    else (cache, disk)

-- `loaded` is as it was before either file was read.
unfoldable pub reload_state : ℕ → Held → Held
reload_state c (cache, disk) =
    if not cache.loaded || not ((disk.states c).mtime == cache.state_mtime)
    then (
      record cache { state = (disk.states c).content; state_mtime = (disk.states c).mtime },
      disk,
    )
    else (cache, disk)

unfoldable pub adopt_if_missing : ℕ → Held → Held
unfolding adopt_legacy_cache
adopt_if_missing c (cache, disk) =
    if is_missing cache.schedule && not cache.legacy_checked
    then adopt_legacy_cache c (cache, disk)
    else (cache, disk)

unfoldable pub recover_if_missing : Option Schedule → ℕ → Held → Held
unfolding keep_recovered recover_from_db
recover_if_missing row c (cache, disk) =
    if is_missing cache.schedule
    then keep_recovered c (recover_from_db c row) (cache, disk)
    else (cache, disk)

abbrev mark_loaded : Held → Held
mark_loaded (cache, disk) = (record cache { loaded = true }, disk)

-- `ensureLoaded`
unfoldable pub ensure_loaded : Option Schedule → ℕ → Held → Held
unfolding recover_if_missing adopt_if_missing reload_state reload_schedule
ensure_loaded row c (cache, disk) =
    if cache.loaded
      && (disk.schedules c).mtime == cache.schedule_mtime
      && (disk.states c).mtime == cache.state_mtime
    then (cache, disk)
    else mark_loaded (
        recover_if_missing row c
          (adopt_if_missing c (reload_state c (reload_schedule c (cache, disk)))))

-- An operation on one course of the storage; the other caches are not touched.
unfoldable pub held_at : ℕ → (Held → Held) → Storage → Storage
unfolding updated
held_at c f s =
    let (cache, disk) = f (s.caches c, s.disk) in
    record { disk = disk; caches = updated s.caches c cache }

module _ (supported : ℕ → Bool) (database : ℕ → Option Schedule) where
  abbrev pub loaded_at : ℕ → Storage → Storage
  loaded_at c s = held_at c (ensure_loaded (database c) c) s

  -- `getCurrentSchedule`; none throws, for a course that is not supported.
  unfoldable pub get_current_schedule : ℕ → Storage → Option (Option Schedule × Storage)
  unfolding held_at ensure_loaded
  get_current_schedule c s =
      if not (supported c)
      then none
      else let after : Storage = loaded_at c s in some ((after.caches c).schedule, after)

  unfoldable pub state_or_empty : Option SourceState → SourceState
  unfolding create_empty_source_state
  state_or_empty none = create_empty_source_state
  state_or_empty (some st) = st

  -- `getSourceState`
  unfoldable pub get_source_state : ℕ → Storage → Option (SourceState × Storage)
  unfolding held_at ensure_loaded state_or_empty
  get_source_state c s =
      if not (supported c)
      then none
      else let after : Storage = loaded_at c s in
        some (state_or_empty (after.caches c).state, after)

  unfoldable pub save_state : ℕ → SourceState → Held → Held
  unfolding write_state
  save_state c st (cache, disk) =
      let after : Disk = write_state c st disk in
      (record cache { state = some st; state_mtime = (after.states c).mtime }, after)

  -- `saveSourceState`
  unfoldable pub save_source_state :
      ℕ → (SourceState → SourceState) → Storage → Option (SourceState × Storage)
  unfolding held_at ensure_loaded state_or_empty save_state
  save_source_state c patch s =
      if not (supported c)
      then none
      else let after : Storage = loaded_at c s in
        let next : SourceState = patch (state_or_empty (after.caches c).state) in
        some (next, held_at c (save_state c next) after)

  unfoldable pub save_schedule : ℕ → Schedule → Held → Held
  unfolding write_schedule
  save_schedule c sch (cache, disk) =
      let after : Disk = write_schedule c sch disk in
      (record cache { schedule = some sch; schedule_mtime = (after.schedules c).mtime }, after)

  -- `replaceCurrentSchedule`: another course's timetable is refused.
  unfoldable pub replace_current_schedule : ℕ → Schedule → Storage → Option Storage
  unfolding held_at ensure_loaded save_schedule
  replace_current_schedule c sch s =
      if not (supported c)
      then none
      else if not (sch.metadata.course_year == c)
      then none
      else some (held_at c (save_schedule c sch) (loaded_at c s))

  -- `resetStorageCache`: the next call reads the disk again.
  unfoldable pub reset_storage_cache : Storage → Storage
  reset_storage_cache s = record s { caches = λ c. fresh_cache }

  pub data Operation : Type 0 where
    gets_schedule gets_state : ℕ → Operation
    saves_state : ℕ → (SourceState → SourceState) → Operation
    replaces_schedule : ℕ → Schedule → Operation
    resets : Operation

  abbrev after_answer : {A : Type 0} → Option (A × Storage) → Storage → Storage
  after_answer none s = s
  after_answer (some (a, t)) s = t

  abbrev after_replacing : Option Storage → Storage → Storage
  after_replacing none s = s
  after_replacing (some t) s = t

  -- The storage after an operation; one that throws at once changes nothing.
  unfoldable pub perform : Operation → Storage → Storage
  unfolding get_current_schedule get_source_state save_source_state replace_current_schedule
      reset_storage_cache
  perform (gets_schedule c) s = after_answer (get_current_schedule c s) s
  perform (gets_state c) s = after_answer (get_source_state c s) s
  perform (saves_state c patch) s = after_answer (save_source_state c patch s) s
  perform (replaces_schedule c sch) s = after_replacing (replace_current_schedule c sch s) s
  perform resets s = reset_storage_cache s

  unfoldable pub performs : List Operation → Storage → Storage
  unfolding perform
  performs [] s = s
  performs (op ∷ ops) s = performs ops (perform op s)

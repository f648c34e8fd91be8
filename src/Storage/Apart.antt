-- ===== src/Storage/Apart.antt =====
-- An operation on one course leaves the files of the others (src/lib/storage/index.ts).
use utm_curs_i_orar.Prelude.{
  ℕ, ◌≡◌, refl, ◌∙◌, true, false, ◌&&◌, ◌||◌, not, Option, none, some, inl, inr, Bool-cases, ◌==◌,
}
use utm_curs_i_orar.Models.{Schedule, SourceState}
use utm_curs_i_orar.Storage.{
  Disk, CourseCache, Held, updated, write_schedule, write_state, is_missing, legacy_state_matches,
  adopt_state, adopt_schedule, adopt_legacy_cache, recover_from_db, keep_recovered, reload_schedule,
  reload_state, adopt_if_missing, recover_if_missing, mark_loaded, ensure_loaded,
}

-- The files of a course are as they were.
abbrev pub AreSame : ℕ → Disk → Disk → Type 0
AreSame c before after =
    (after.schedules c ≡ before.schedules c) × (after.states c ≡ before.states c)

AreSame-trans : (c : ℕ) (x y z : Disk) → AreSame c x y → AreSame c y z → AreSame c x z
AreSame-trans c x y z (a, b) (a', b') = (a' ∙ a, b' ∙ b)

-- With the disk that an operation started from, and what it leaves.
abbrev pub Leaves : ℕ → Disk → Held → Type 0
Leaves c before (cache, disk) = AreSame c before disk

module _ (c d : ℕ) (other : (c == d) ≡ false) where
  pub write_schedule_apart : (s : Schedule) (disk : Disk) → AreSame c disk (write_schedule d s disk)
  unfolding write_schedule updated
  write_schedule_apart s disk = (rw other refl, refl)

  pub write_state_apart : (st : SourceState) (disk : Disk) → AreSame c disk (write_state d st disk)
  unfolding write_state updated
  write_state_apart st disk = (refl, rw other refl)

  adopt_state_apart :
      (s : Schedule) (st : Option SourceState) (cache : CourseCache) (disk before : Disk)
      → AreSame c before disk
      → Leaves c before (adopt_state d s st (cache, disk))
  unfolding adopt_state
  adopt_state_apart s none cache disk before h = h
  adopt_state_apart s (some st) cache disk before h =
      elim (Bool-cases (legacy_state_matches s st)) [
        | inl e ↦
            rw (e, adopt_state)
              (AreSame-trans c before disk (write_state d st disk) h (write_state_apart st disk))
        | inr e ↦ rw (e, adopt_state) h
      ]

  adopt_schedule_apart :
      (s : Option Schedule) (cache : CourseCache) (disk : Disk)
      → Leaves c disk (adopt_schedule d s (cache, disk))
  unfolding adopt_schedule
  adopt_schedule_apart none cache disk = (refl, refl)
  adopt_schedule_apart (some s) cache disk = elim (Bool-cases (not (s.metadata.course_year == d))) [
    | inl e ↦ rw (e, adopt_schedule) (refl, refl)
    | inr e ↦
        rw (e, adopt_schedule)
          (adopt_state_apart s disk.legacy_state.content _ (write_schedule d s disk) disk
            (write_schedule_apart s disk))
  ]

  adopt_apart :
      (cache : CourseCache) (disk : Disk) → Leaves c disk (adopt_if_missing d (cache, disk))
  unfolding adopt_if_missing adopt_legacy_cache
  adopt_apart cache disk =
      elim (Bool-cases (is_missing cache.schedule && not cache.legacy_checked)) [
        | inl e ↦
            rw (e, adopt_if_missing)
              (adopt_schedule_apart disk.legacy_schedule.content
                (record cache { legacy_checked = true }) disk)
        | inr e ↦ rw (e, adopt_if_missing) (refl, refl)
      ]

  keep_apart :
      (s : Option Schedule) (cache : CourseCache) (disk before : Disk)
      → AreSame c before disk
      → Leaves c before (keep_recovered d s (cache, disk))
  unfolding keep_recovered
  keep_apart none cache disk before h = h
  keep_apart (some s) cache disk before h =
      AreSame-trans c before disk (write_schedule d s disk) h (write_schedule_apart s disk)

  recover_apart :
      (row : Option Schedule) (held : Held) (before : Disk)
      → Leaves c before held
      → Leaves c before (recover_if_missing row d held)
  unfolding recover_if_missing
  recover_apart row (cache, disk) before h = elim (Bool-cases (is_missing cache.schedule)) [
    | inl e ↦ rw (e, recover_if_missing) (keep_apart (recover_from_db d row) cache disk before h)
    | inr e ↦ rw (e, recover_if_missing) h
  ]

  adopted_apart :
      (held : Held) (before : Disk)
      → Leaves c before held
      → Leaves c before (adopt_if_missing d held)
  adopted_apart (cache, disk) before h =
      AreSame-trans c before disk (adopt_if_missing d (cache, disk)).1 h (adopt_apart cache disk)

  reload_schedule_apart :
      (held : Held) (before : Disk)
      → Leaves c before held
      → Leaves c before (reload_schedule d held)
  unfolding reload_schedule
  reload_schedule_apart (cache, disk) before h =
      elim (Bool-cases
        (not cache.loaded || not ((disk.schedules d).mtime == cache.schedule_mtime))) [
          | inl e ↦ rw (e, reload_schedule) h
          | inr e ↦ rw (e, reload_schedule) h
        ]

  reload_state_apart :
      (held : Held) (before : Disk) → Leaves c before held → Leaves c before (reload_state d held)
  unfolding reload_state
  reload_state_apart (cache, disk) before h =
      elim (Bool-cases (not cache.loaded || not ((disk.states d).mtime == cache.state_mtime))) [
        | inl e ↦ rw (e, reload_state) h
        | inr e ↦ rw (e, reload_state) h
      ]

  marked_apart :
      (held : Held) (before : Disk) → Leaves c before held → Leaves c before (mark_loaded held)
  marked_apart (cache, disk) before h = h

  pub ensure_loaded_apart :
      (row : Option Schedule) (cache : CourseCache) (disk : Disk)
      → Leaves c disk (ensure_loaded row d (cache, disk))
  unfolding ensure_loaded
  ensure_loaded_apart row cache disk =
      elim (Bool-cases (
        cache.loaded
        && (disk.schedules d).mtime == cache.schedule_mtime
        && (disk.states d).mtime == cache.state_mtime)) [
          | inl e ↦ rw (e, ensure_loaded) (refl, refl)
          | inr e ↦
              let first : Held = reload_schedule d (cache, disk) in
              let second : Held = reload_state d first in
              let third : Held = adopt_if_missing d second in
              let left : Leaves c disk third = adopted_apart second disk (
                reload_state_apart first disk
                  (reload_schedule_apart (cache, disk) disk (refl, refl))) in
              rw (e, ensure_loaded)
                (marked_apart (recover_if_missing row d third) disk
                  (recover_apart row third disk left))
        ]

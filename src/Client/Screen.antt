-- ===== src/Client/Screen.antt =====
-- The state of src/components/ScheduleApp.tsx that a load may touch, and what changes it: the
-- restored preferences, the loads of the effect's timers, a change of course, a choice of group.
pub mod Paired
pub mod Coherent
pub mod Overtaken
use utm_curs_i_orar.Prelude.{
  ℕ, ◌≡◌, Bool, true, false, Option, none, some, List, [], ◌∷◌, ◌++◌, any, ◌==◌, if◌then◌else◌,
}
use utm_curs_i_orar.Text.{Text, text_eq}
use utm_curs_i_orar.Models.{ScheduleResponse, StatusResponse}
use utm_curs_i_orar.Client.CourseLoad.{
  LoadMessage, LoadOutcome, applied, failed, stale, LoadGenerations, next, invalidate, Fetched,
  load_course,
}

-- A load that waits for its answers.
pub record Load : Type 0 where
  pub generation : ℕ
  pub course_year : ℕ

-- `restoring` is whether the timer of the effect that restores the preferences is set.
pub record Screen : Type 0 where
  pub course : ℕ
  pub hydrated : Bool
  pub restoring : Bool
  pub schedule : Option ScheduleResponse
  pub status : Option StatusResponse
  pub load_error : Option LoadMessage
  pub group : Option Text
  pub generations : LoadGenerations
  pub in_flight : List Load

unfoldable pub is_published : List Text → Text → Bool
is_published groups g = any (text_eq g) groups

-- `current && outcome.payload.schedule.groups.includes(current) ? current : null`
unfoldable pub kept_group : List Text → Option Text → Option Text
unfolding is_published
kept_group groups none = none
kept_group groups (some g) = if is_published groups g then some g else none

-- What `load` does with the outcome.
unfoldable pub apply_outcome : LoadOutcome → Screen → Screen
unfolding kept_group
apply_outcome stale s = s
apply_outcome (failed message) s = record s { load_error = some message }
apply_outcome (applied p) s = record s {
  schedule = some p.schedule;
  status = some p.status;
  load_error = none;
  group = kept_group p.schedule.groups s.group;
}

unfoldable pub start_load : Screen → Screen
unfolding next
start_load s =
    let (generation, generations) = next s.generations in
    record s {
      generations = generations;
      in_flight = record { generation = generation; course_year = s.course } ∷ s.in_flight;
    }

unfoldable pub finish_load : Load → Fetched → List Load → Screen → Screen
unfolding apply_outcome load_course
finish_load l reply others s =
    apply_outcome (load_course l.course_year l.generation reply s.generations)
      (record s { in_flight = others })

-- `selectCourse`; `remembered` is the group that the preferences keep for the new course.
unfoldable pub select_course : ℕ → Option Text → Screen → Screen
unfolding invalidate
select_course year remembered s = if year == s.course then s else record s {
  generations = invalidate s.generations;
  course = year;
  schedule = none;
  status = none;
  load_error = none;
  group = remembered;
}

-- The timer of the effect that applies the stored preferences.
unfoldable pub restore : ℕ → Option Text → Screen → Screen
unfolding invalidate
restore year remembered s = record s {
  generations = invalidate s.generations;
  course = year;
  group = remembered;
  hydrated = true;
  restoring = false;
}

-- Other `courseYears` or another `defaultCourse`: the effect runs again and sets its timer anew.
unfoldable pub receive_props : Screen → Screen
receive_props s = record s { restoring = true }

unfoldable pub select_group : Option Text → Screen → Screen
select_group g s = record s { group = g }

unfoldable pub initial : ℕ → Screen
initial year = record {
  course = year;
  hydrated = false;
  restoring = true;
  schedule = none;
  status = none;
  load_error = none;
  group = none;
  generations = record { counter = 0 };
  in_flight = [];
}

-- The options of the list of groups: the empty one and the groups of the schedule.
abbrev pub Offered : Option ScheduleResponse → Option Text → Type 0
Offered schedule none = Unit
Offered none (some g) = ⊥
Offered (some a) (some g) = is_published a.groups g ≡ true

-- What may happen next, in any order. A timer of the effect loads the course on show, since a
-- change of course replaces the timers; the preferences are restored when their timer is set, which
-- the first render and each change of the properties do; any waiting load may be answered, with anything.
pub data Step (s : Screen) : Screen → Type 0 where
  restores : (year : ℕ) (g : Option Text) → s.restoring ≡ true → Step s (restore year g s)
  receives : Step s (receive_props s)
  loads : s.hydrated ≡ true → Step s (start_load s)
  settles :
      (before : List Load) (l : Load) (after : List Load) (reply : Fetched)
      → s.in_flight ≡ before ++ l ∷ after
      → Step s (finish_load l reply (before ++ after) s)
  selects : (year : ℕ) (g : Option Text) → Step s (select_course year g s)
  picks : (g : Option Text) → Offered s.schedule g → Step s (select_group g s)

pub data Reach (s : Screen) : Screen → Type 0 where
  here : Reach s s
  after : {t u : Screen} → Reach s t → Step t u → Reach s u

-- ===== src/Storage/Tests.antt =====
-- A storage with a timetable for two courses and a legacy file, and the theorems at it.
use utm_curs_i_orar.Prelude.{
  ℕ, ◌≡◌, refl, Bool, ◌||◌, Option, none, some, List, [], ◌∷◌, ◌==◌, if◌then◌else◌,
}
use utm_curs_i_orar.Text.{codes}
use utm_curs_i_orar.Models.{Schedule, SourceState, seed, direct}
use utm_curs_i_orar.Storage.Backed.{Kept}
use utm_curs_i_orar.Storage.Refined.{IsStored, get_current_schedule-performs}
use utm_curs_i_orar.Storage.{
  resets, get_source_state, state_or_empty, Storage, fresh_cache, Operation, gets_schedule,
  gets_state, replaces_schedule, performs, get_current_schedule,
}
use utm_curs_i_orar.Storage.Scoped.{IsScoped, IsOf, get_current_schedule-IsScoped}

abbrev timetable_of : ℕ → Schedule
timetable_of year = record {
  metadata = record {
    academic_year = none;
    semester = none;
    course_year = year;
    source_page_url = [];
    source_pdf_url = codes "https://fcim.utm.md/orar.pdf";
    source_pdf_hash = codes "aa";
    source_kind = seed;
    source_transport = direct;
    source_snapshot_id = none;
    downloaded_at = [];
    parsed_at = [];
    parser_version = codes "3";
    etag = none;
    last_modified = none;
    pdf_title = none;
  };
  rest = [];
}

-- Only the legacy file of the first course is there.
abbrev upgraded : Storage
upgraded = record {
  disk = record {
    schedules = λ c. record { content = none; mtime = 0 };
    states = λ c. record { content = none; mtime = 0 };
    legacy_schedule = record { content = some (timetable_of 1); mtime = 7 };
    legacy_state = record { content = none; mtime = 0 };
    clock = 7;
  };
  caches = λ c. fresh_cache;
}

abbrev two_courses : ℕ → Bool
two_courses c = c == 1 || c == 2

abbrev no_database : ℕ → Option Schedule
no_database c = none

abbrev history : List (Operation two_courses no_database)
history = gets_state 2 ∷ replaces_schedule 2 (timetable_of 2) ∷ []

upgraded-IsScoped : IsScoped upgraded
upgraded-IsScoped = record { disk = λ c. tt; caches = λ c. tt }

abbrev served : Storage
served = performs two_courses no_database history upgraded

-- The first course's timetable is adopted from the legacy file.
first_answer :
    get_current_schedule two_courses no_database 1 served
    ≡ some (some (timetable_of 1), performs two_courses no_database (gets_schedule 1 ∷ []) served)
unfolding performs get_current_schedule
first_answer = refl

get_current_schedule-IsScoped_example :
    IsOf 1 (some (timetable_of 1))
    × IsScoped (performs two_courses no_database (gets_schedule 1 ∷ []) served)
get_current_schedule-IsScoped_example =
    get_current_schedule-IsScoped two_courses no_database history upgraded
      (performs two_courses no_database (gets_schedule 1 ∷ []) served) 1 (some (timetable_of 1))
      upgraded-IsScoped first_answer

-- The first course's timetable is in its file, and another process has not loaded it yet.
abbrev installed : Storage
installed = record {
  disk = record upgraded.disk {
    schedules = λ c.
        if c == 1
        then record { content = some (timetable_of 1); mtime = 5 }
        else record { content = none; mtime = 0 };
  };
  caches = λ c. fresh_cache;
}

abbrev first_kept : Kept
first_kept = record { schedule = timetable_of 1; state = none }

installed-IsStored : IsStored 1 first_kept installed
installed-IsStored = record {
  schedule_file = refl;
  state_file = refl;
  schedule_cache = λ e f. cc;
  state_cache = λ e f. cc;
}

abbrev revised : Schedule
revised = record (timetable_of 1) { rest = codes "revised" }

abbrev later : List (Operation two_courses no_database)
later =
    gets_schedule 1
    ∷ replaces_schedule 2 (timetable_of 2)
    ∷ replaces_schedule 1 revised
    ∷ resets
    ∷ []

get_current_schedule-performs_example :
    ((t : Storage) × Path
        (Option (Option Schedule × Storage))
        (get_current_schedule two_courses no_database 1
          (performs two_courses no_database later installed))
        (some (some revised, t)))
    × ((u : Storage) × Path
          (Option (SourceState × Storage))
          (get_source_state two_courses no_database 1
            (performs two_courses no_database later installed))
          (some (state_or_empty two_courses no_database none, u)))
get_current_schedule-performs_example =
    get_current_schedule-performs two_courses no_database 1 later first_kept installed refl
      installed-IsStored

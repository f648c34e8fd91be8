-- ===== src/Client/Tests.antt =====
-- Concrete documents and runs of the screen, and the theorems at them.
use utm_curs_i_orar.Client.Time.{
  week_from, start_day, anchor_day, utc_day, default_odd_week_anchor, even_week,
}
use utm_curs_i_orar.Client.Time.Weeks.{week_from-counts}
use utm_curs_i_orar.Prelude.{arith, pos, ℕ, ◌≡◌, refl, ◌⊎◌, true, none, some, [], ◌∷◌}
use utm_curs_i_orar.Text.{Text, codes}
use utm_curs_i_orar.Models.{ScheduleMetadata, live, direct, ScheduleResponse, StatusResponse}
use utm_curs_i_orar.Client.CourseLoad.{answered, Fetched}
use utm_curs_i_orar.Client.Screen.{
  Load, Screen, initial, restore, start_load, select_course, finish_load, Reach, here, after,
  restores, loads, selects, settles,
}
use utm_curs_i_orar.Client.Screen.Coherent.{HasReceived, IsCoherent, Reach-IsCoherent}
use utm_curs_i_orar.Client.Screen.Paired.{IsPaired}
use utm_curs_i_orar.Client.Screen.Overtaken.{finish_load-overtaken}

abbrev metadata_of : ℕ → ScheduleMetadata
metadata_of year = record {
  academic_year = none;
  semester = none;
  course_year = year;
  source_page_url = [];
  source_pdf_url = codes "https://fcim.utm.md/orar.pdf";
  source_pdf_hash = codes "aa";
  source_kind = live;
  source_transport = direct;
  source_snapshot_id = none;
  downloaded_at = [];
  parsed_at = [];
  parser_version = codes "3";
  etag = none;
  last_modified = none;
  pdf_title = none;
}

abbrev schedule_of : ℕ → ScheduleResponse
schedule_of year = record {
  course_year = year;
  metadata = metadata_of year;
  groups = codes "SI-261" ∷ [];
  days = [];
  lessons = [];
  rest = [];
}

abbrev status_of : ℕ → StatusResponse
status_of year = record {
  ok = true;
  has_schedule = true;
  course_year = year;
  odd_week_anchor = codes "2026-08-31";
  rest = [];
}

abbrev answer_for : ℕ → Fetched
answer_for year = answered (schedule_of year) (status_of year)

-- Course 1 is restored and loaded, then course 2 is chosen and loaded.
abbrev hydrated : Screen
hydrated = restore 1 (some (codes "SI-261")) (initial 1)

abbrev first_load : Load
first_load = record { generation = 2; course_year = 1 }

abbrev moved : Screen
moved = select_course 2 none (start_load hydrated)

abbrev second_load : Load
second_load = record { generation = 4; course_year = 2 }

abbrev loading : Screen
loading = start_load moved

abbrev shown : Screen
shown = finish_load second_load (answer_for 2) (first_load ∷ []) loading

loading-Reach : Reach (initial 1) loading
unfolding initial restore start_load select_course
loading-Reach =
    after
      (after (after (after here (restores 1 (some (codes "SI-261")) refl)) (loads refl))
        (selects 2 none))
      (loads refl)

shown-Reach : Reach (initial 1) shown
unfolding initial restore start_load select_course
shown-Reach = after loading-Reach (settles [] second_load (first_load ∷ []) (answer_for 2) refl)

Reach-IsCoherent_example : IsPaired shown × (HasReceived shown-Reach ⊎ IsCoherent shown)
Reach-IsCoherent_example = Reach-IsCoherent 1 shown shown-Reach

-- The second document is on the screen.
shown_second : shown.schedule ≡ some (schedule_of 2)
unfolding finish_load initial restore start_load select_course
shown_second = refl

-- The load of course 1 waited when course 2 was chosen.
first-Reach : Reach (initial 1) (start_load hydrated)
unfolding initial restore start_load
first-Reach = after (after here (restores 1 (some (codes "SI-261")) refl)) (loads refl)

moved-Reach : Reach moved shown
unfolding initial restore start_load select_course
moved-Reach =
    after (after here (loads refl)) (settles [] second_load (first_load ∷ []) (answer_for 2) refl)

finish_load-overtaken_example :
    finish_load first_load (answer_for 1) [] shown ≡ record shown { in_flight = [] }
unfolding initial restore start_load select_course
finish_load-overtaken_example =
    finish_load-overtaken 1 (start_load hydrated) moved shown [] first_load [] (answer_for 1) []
      (selects 2 none) first-Reach refl refl moved-Reach

-- The default anchor's day, a Monday; nine days later is Wednesday of the second week, an even one.
default_start : start_day default_odd_week_anchor ≡ 740226
unfolding start_day anchor_day utc_day utm_curs_i_orar.Text.matches utm_curs_i_orar.Text.trim
    utm_curs_i_orar.Worker.Instants.days_in_month
default_start = refl

week_from-counts_example :
    ((week_from 740226 (record { day = 740235; weekday = 2 })).number ≡ pos 2)
    × ((week_from 740226 (record { day = 740235; weekday = 2 })).parity ≡ even_week)
week_from-counts_example = week_from-counts 740226 740235 (omega arith) (omega arith)

-- ===== src/Client/CourseLoad.antt =====
-- src/lib/client/course-load.ts: the loading of one course, with a generation per load. An
-- asynchronous function is cut at its `await`: `next` is the part before it, `load_course` the part
-- after it, which reads the generations as they then are.
use utm_curs_i_orar.Prelude.{ℕ, suc, Bool, Option, none, some, ◌||◌, not, ◌==◌, if◌then◌else◌}
use utm_curs_i_orar.Text.{Text}
use utm_curs_i_orar.Models.{ScheduleResponse, StatusResponse}

pub record CoursePayload : Type 0 where
  pub schedule : ScheduleResponse
  pub status : StatusResponse

-- The message of a failed load: the numbers of the two template strings, or an error's own.
pub data LoadMessage : Type 0 where
  schedule_belongs_to : (course document expected : ℕ) → LoadMessage
  status_belongs_to : (course expected : ℕ) → LoadMessage
  thrown : Text → LoadMessage

pub data LoadOutcome : Type 0 where
  applied : CoursePayload → LoadOutcome
  failed : LoadMessage → LoadOutcome
  stale : LoadOutcome

pub record LoadGenerations : Type 0 where
  pub counter : ℕ

unfoldable pub next : LoadGenerations → ℕ × LoadGenerations
next g = (suc g.counter, record { counter = suc g.counter })

unfoldable pub invalidate : LoadGenerations → LoadGenerations
invalidate g = record { counter = suc g.counter }

unfoldable pub is_current : LoadGenerations → ℕ → Bool
is_current g generation = generation == g.counter

unfoldable pub payload_mismatch : ℕ → CoursePayload → Option LoadMessage
payload_mismatch year p =
    if not (p.schedule.course_year == year) || not (p.schedule.metadata.course_year == year)
    then some (schedule_belongs_to p.schedule.course_year p.schedule.metadata.course_year year)
    else if not (p.status.course_year == year)
    then some (status_belongs_to p.status.course_year year)
    else none

-- What `Promise.all` of the two requests comes to.
pub data Fetched : Type 0 where
  answered : ScheduleResponse → StatusResponse → Fetched
  threw : Text → Fetched

unfoldable pub judge : CoursePayload → Option LoadMessage → LoadOutcome
judge p (some mismatch) = failed mismatch
judge p none = applied p

unfoldable pub load_course : ℕ → ℕ → Fetched → LoadGenerations → LoadOutcome
unfolding is_current judge payload_mismatch
load_course year generation (answered schedule status) g =
    if not (is_current g generation)
    then stale
    else let p : CoursePayload = record { schedule = schedule; status = status } in
      judge p (payload_mismatch year p)
load_course year generation (threw message) g =
    if not (is_current g generation) then stale else failed (thrown message)

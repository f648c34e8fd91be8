-- ===== src/Client/Screen/Overtaken.antt =====
-- The answers that come too late: src/lib/client/course-load.ts under src/components/ScheduleApp.tsx.
use utm_curs_i_orar.Prelude.{
  ℕ, ◌≤◌, ◌<◌, ◌≡◌, refl, false, List, ◌∷◌, ◌++◌, inl, inr, ◌==◌, Bool-cases, arith,
}
use utm_curs_i_orar.Client.Screen.Paired.{picked_of, Reach-IsPaired}
use utm_curs_i_orar.Client.CourseLoad.{
  LoadOutcome, applied, failed, stale, LoadGenerations, is_current, Fetched, answered, threw,
  load_course, invalidate, next,
}
use utm_curs_i_orar.Client.Screen.{
  Load, Screen, apply_outcome, start_load, finish_load, select_course, restore, select_group, Step,
  initial, receive_props, restores, receives, loads, settles, selects, picks, Reach, here, after,
}

-- A load that is not the newest stays overtaken, and its answer changes nothing.
same_counter :
    (s : Screen) (o : LoadOutcome) → (apply_outcome o s).generations.counter ≡ s.generations.counter
unfolding apply_outcome
same_counter s stale = refl
same_counter s (failed m) = refl
same_counter s (applied p) = refl

counter_grows : {s t : Screen} → Step s t → s.generations.counter ≤ t.generations.counter
unfolding restore receive_props start_load finish_load select_course select_group next invalidate
    apply_outcome
counter_grows (restores year g h) = omega arith
counter_grows receives = omega arith
counter_grows (loads h) = omega arith
counter_grows {s} (settles before l rest reply e) = omega (
  arith,
  same_counter (record s { in_flight = before ++ rest })
      (load_course l.course_year l.generation reply s.generations),
)
counter_grows {s} (selects year g) = elim (Bool-cases (year == s.course)) [
  | inl e ↦ rw (e, select_course) (omega arith)
  | inr e ↦ rw (e, select_course) (omega arith)
]
counter_grows (picks g h) = omega arith

Reach-counter : {s t : Screen} → Reach s t → s.generations.counter ≤ t.generations.counter
Reach-counter here = omega arith
Reach-counter (after r step) = omega (arith, Reach-counter r, counter_grows step)

older : (a b : ℕ) → a < b → (a == b) ≡ false
older a b h = ground arith

overtaken_stale :
    (year generation : ℕ) (reply : Fetched) (g : LoadGenerations)
    → generation < g.counter
    → load_course year generation reply g ≡ stale
unfolding load_course is_current
overtaken_stale year generation (answered a b) g h = rw (older generation g.counter h) refl
overtaken_stale year generation (threw m) g h = rw (older generation g.counter h) refl

-- A step that retires the loads which wait: a newer load, a restored preference, another course.
abbrev pub IsOvertaking : {s t : Screen} → Step s t → Type 0
IsOvertaking (restores year g h) = Unit
IsOvertaking (loads h) = Unit
IsOvertaking {s} (selects year g) = (year == s.course) ≡ false
IsOvertaking receives = ⊥
IsOvertaking (settles before l rest reply e) = ⊥
IsOvertaking (picks g h) = ⊥

overtaking-counter :
    {s u : Screen} (step : Step s u)
    → IsOvertaking step
    → s.generations.counter < u.generations.counter
unfolding restore start_load select_course next invalidate
overtaking-counter (restores year g h) o = omega arith
overtaking-counter (loads h) o = omega arith
overtaking-counter {s} (selects year g) o = rw (o, select_course) (omega arith)
overtaking-counter receives o = absurd o
overtaking-counter (settles before l rest reply e) o = absurd o
overtaking-counter (picks g h) o = absurd o

-- Whatever led to the screen: once a newer load has started, the course was changed to another or
-- the preferences were restored, the answer of a load that waited before changes nothing at all,
-- however late it comes and whatever it is: not the documents, not the error, not the group.
pub finish_load-overtaken :
    (year : ℕ) (s u t : Screen) (before : List Load) (l : Load) (rest : List Load) (reply : Fetched)
    (others : List Load) (step : Step s u)
    → Reach (initial year) s
    → s.in_flight ≡ before ++ l ∷ rest
    → IsOvertaking step
    → Reach u t
    → finish_load l reply others t ≡ record t { in_flight = others }
unfolding finish_load apply_outcome
finish_load-overtaken year s u t before l rest reply others step reached waits overtakes run =
    let waited = picked_of s before l rest waits (Reach-IsPaired year s reached) in
    rw
      (overtaken_stale l.course_year l.generation reply t.generations
        (omega (arith, waited.0, overtaking-counter step overtakes, Reach-counter run)))
      refl

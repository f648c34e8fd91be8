-- ===== src/Client/Screen/Coherent.antt =====
-- What is on the screen belongs together: src/components/ScheduleApp.tsx with
-- src/lib/client/course-load.ts.
use utm_curs_i_orar.Prelude.{
  ℕ, sym, ◌∙◌, ◌≡◌, refl, Bool, true, false, Option, none, some, List, [], ◌∷◌, ◌++◌, inl, inr, ◌⊎◌,
  ◌==◌, Bool-cases,
}
use utm_curs_i_orar.Text.{Text}
use utm_curs_i_orar.Models.{ScheduleResponse, StatusResponse}
use utm_curs_i_orar.Client.CourseLoad.{
  LoadOutcome, applied, failed, stale, Fetched, load_course, invalidate, next,
}
use utm_curs_i_orar.Client.Screen.{
  Load, Screen, is_published, kept_group, apply_outcome, start_load, finish_load, select_course,
  restore, select_group, initial, Offered, Step, restores, receives, loads, settles, selects, picks,
  Reach, here, after,
}
use utm_curs_i_orar.Client.Screen.Paired.{
  Shown, IsPaired, Brings, load_course-Brings, picked_of, Reach-IsPaired,
}

-- What is on the screen is of the course that is selected. Before the preferences are restored
-- nothing is loaded, and they are restored once.
pub record IsCoherent (s : Screen) : Type 0 where
  pub shown : Shown s.course s.schedule s.status s.group
  pub once : s.restoring ≡ true → s.hydrated ≡ false
  pub quiet : s.hydrated ≡ false → (s.in_flight ≡ []) × (s.schedule ≡ none) × (s.status ≡ none)

not_both : {A : Type 0} (xs : List A) (x : A) (ys : List A) → ¬ (xs ++ x ∷ ys ≡ [])
not_both [] x ys h = cc
not_both (w ∷ xs) x ys h = cc

hydrated_of : (b : Bool) → ¬ (b ≡ false) → b ≡ true
hydrated_of true h = refl
hydrated_of false h = absurd (h refl)

kept_group-Offered :
    (a : ScheduleResponse) (g : Option Text) → Offered (some a) (kept_group a.groups g)
unfolding kept_group
kept_group-Offered a none = tt
kept_group-Offered a (some g) = elim (Bool-cases (is_published a.groups g)) [
  | inl e ↦ rw (e, kept_group) e
  | inr e ↦ rw (e, kept_group) tt
]

apply-IsCoherent :
    (s : Screen) (o : LoadOutcome)
    → IsCoherent s
    → s.hydrated ≡ true
    → Brings o s.course
    → IsCoherent (apply_outcome o s)
unfolding apply_outcome kept_group
apply-IsCoherent s stale i h given = i
apply-IsCoherent s (failed m) i h given = record { shown = i.shown; once = i.once; quiet = i.quiet }
apply-IsCoherent s (applied p) i h (a, b, c) = record {
  shown = (a, b, c, kept_group-Offered p.schedule s.group);
  once = i.once;
  quiet = λ e. cc;
}

finish-IsCoherent :
    (s : Screen) (before : List Load) (l : Load) (rest : List Load) (reply : Fetched)
    → s.in_flight ≡ before ++ l ∷ rest
    → IsPaired s
    → IsCoherent s
    → IsCoherent (finish_load l reply (before ++ rest) s)
unfolding finish_load
finish-IsCoherent s before l rest reply e paired i =
    let busy : ¬ (s.hydrated ≡ false) = λ h. not_both before l rest (sym e ∙ (i.quiet h).0) in
    let cleared : IsCoherent (record s { in_flight = before ++ rest }) = record {
      shown = i.shown;
      once = i.once;
      quiet = λ h. absurd (busy h);
    } in
    apply-IsCoherent (record s { in_flight = before ++ rest })
      (load_course l.course_year l.generation reply s.generations) cleared
      (hydrated_of s.hydrated busy)
      (load_course-Brings s.course l.course_year l.generation reply s.generations _ refl
        (picked_of s before l rest e paired).1)

Shown-picked :
    (c : ℕ) (a : Option ScheduleResponse) (b : Option StatusResponse) (g g' : Option Text)
    → Shown c a b g
    → Offered a g'
    → Shown c a b g'
Shown-picked c none none g g' h o = tt
Shown-picked c none (some b) g g' h o = h
Shown-picked c (some a) none g g' h o = h
Shown-picked c (some a) (some b) g g' (x, y, z, h) o = (x, y, z, o)

-- The component was given other properties, on which the preferences are restored again.
abbrev pub IsReceived : {s t : Screen} → Step s t → Type 0
IsReceived receives = Unit
IsReceived (restores year g h) = ⊥
IsReceived (loads h) = ⊥
IsReceived (settles before l rest reply e) = ⊥
IsReceived (selects year g) = ⊥
IsReceived (picks g h) = ⊥

abbrev pub HasReceived : {s t : Screen} → Reach s t → Type 0
HasReceived here = ⊥
HasReceived (after r step) = IsReceived step ⊎ HasReceived r

Step-IsCoherent :
    {s t : Screen} (step : Step s t) → IsPaired s → IsCoherent s → IsReceived step ⊎ IsCoherent t
unfolding restore start_load select_course select_group next invalidate
Step-IsCoherent receives paired i = inl tt
Step-IsCoherent {s} (restores year g h) paired i =
    let (none_waiting, no_schedule, no_status) = i.quiet (i.once h) in
    inr (record { shown = rw (no_schedule, no_status) tt; once = λ e. cc; quiet = λ e. cc })
Step-IsCoherent {s} (loads h) paired i =
    inr (record { shown = i.shown; once = i.once; quiet = λ e. cc })
Step-IsCoherent {s} (settles before l rest reply e) paired i =
    inr (finish-IsCoherent s before l rest reply e paired i)
Step-IsCoherent {s} (selects year g) paired i = elim (Bool-cases (year == s.course)) [
  | inl e ↦ inr (rw (e, select_course) i)
  | inr e ↦ inr (
      rw (e, select_course)
        (record { shown = tt; once = i.once; quiet = λ h. ((i.quiet h).0, refl, refl) }))
]
Step-IsCoherent {s} (picks g h) paired i = inr (record {
  shown = Shown-picked s.course s.schedule s.status s.group g i.shown h;
  once = i.once;
  quiet = i.quiet;
})

-- In every order of loads, answers, restored preferences, changes of course, of the component's
-- properties and of the group, starting from the first render: the screen shows either no document
-- at all, or a schedule and a status that both describe one course, and a load that waits either
-- asked for the course that is selected or is older than the newest. As long as the component was
-- given no other properties, that one course is the course that is selected, and beside a schedule
-- the group, if there is one, is one that the schedule has.
pub Reach-IsCoherent :
    (year : ℕ) (s : Screen) (r : Reach (initial year) s)
    → IsPaired s × (HasReceived r ⊎ IsCoherent s)
unfolding initial
Reach-IsCoherent year s here = (
  Reach-IsPaired year s here,
  inr (record { shown = tt; once = λ h. refl; quiet = λ h. (refl, refl, refl) }),
)
Reach-IsCoherent year s (after {t} r step) = (
  Reach-IsPaired year s (after r step),
  elim (Reach-IsCoherent year t r).1 [
    | inl h ↦ inl (inr h)
    | inr i ↦ elim (Step-IsCoherent step (Reach-IsPaired year t r) i) [
      | inl h ↦ inl (inl h)
      | inr j ↦ inr j
    ]
  ],
)

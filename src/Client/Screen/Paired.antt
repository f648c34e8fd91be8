-- ===== src/Client/Screen/Paired.antt =====
-- The documents on the screen and the loads that wait, in every run:
-- src/components/ScheduleApp.tsx with src/lib/client/course-load.ts.
use utm_curs_i_orar.Prelude.{
  ℕ, suc, ◌∙◌, ◌≤◌, ◌≡◌, refl, ap, subst, Bool, true, false, ◌||◌, not, Option, none, some, List,
  [], ◌∷◌, ◌++◌, inl, inr, All, ◌==◌, ==_iff, Bool-cases, arith, if◌then◌else◌,
}
use utm_curs_i_orar.Text.{Text}
use utm_curs_i_orar.Models.{ScheduleResponse, StatusResponse}
use utm_curs_i_orar.Client.CourseLoad.{
  CoursePayload, LoadMessage, LoadOutcome, applied, failed, stale, LoadGenerations, is_current,
  payload_mismatch, judge, Fetched, answered, threw, load_course, invalidate, next,
}
use utm_curs_i_orar.Client.Screen.{
  Load, Screen, apply_outcome, start_load, finish_load, select_course, restore, select_group,
  initial, Offered, Step, restores, receives, receive_props, loads, settles, selects, picks, Reach,
  here, after,
}

-- Both documents are there and describe the course, and the group is one of the schedule's; or
-- neither is there.
abbrev pub Shown : ℕ → Option ScheduleResponse → Option StatusResponse → Option Text → Type 0
Shown c none none g = Unit
Shown c none (some b) g = ⊥
Shown c (some a) none g = ⊥
Shown c (some a) (some b) g =
    (a.course_year ≡ c) × (a.metadata.course_year ≡ c) × (b.course_year ≡ c) × Offered (some a) g

-- No load is newer than the counter, and one of the newest generation asked for the course on show.
abbrev pub IsWaiting : ℕ → ℕ → Load → Type 0
IsWaiting course counter l =
    (l.generation ≤ counter) × (l.generation ≡ counter → l.course_year ≡ course)

-- The two documents, if there are any, describe one and the same course, and every load that waits
-- is of the course on show or will be found stale.
pub record IsPaired (s : Screen) : Type 0 where
  pub documents : (c : ℕ) × Shown c s.schedule s.status none
  pub waiting : All (IsWaiting s.course s.generations.counter) s.in_flight

module _ {A : Type 0} (P : A → Type 0) where
  All-picked : (xs : List A) (x : A) (ys : List A) → All P (xs ++ x ∷ ys) → P x
  All-picked [] x ys h = h.0
  All-picked (w ∷ xs) x ys h = All-picked xs x ys h.1

  All-others : (xs : List A) (x : A) (ys : List A) → All P (xs ++ x ∷ ys) → All P (xs ++ ys)
  All-others [] x ys h = h.1
  All-others (w ∷ xs) x ys h = (h.0, All-others xs x ys h.1)

  All-map : (Q : A → Type 0) → ((a : A) → P a → Q a) → (xs : List A) → All P xs → All Q xs
  All-map Q f [] h = tt
  All-map Q f (x ∷ xs) h = (f x h.0, All-map Q f xs h.1)

-- A load of an older counter waits for nothing.
IsWaiting-older :
    (course course' counter : ℕ) (ls : List Load)
    → All (IsWaiting course counter) ls
    → All (IsWaiting course' (suc counter)) ls
IsWaiting-older course course' counter ls =
    All-map (IsWaiting course counter) (IsWaiting course' (suc counter))
      (λ l w. (omega (arith, w.0), λ e. absurd (omega (arith, e, w.0)))) ls

module _ (year generation : ℕ) (g : LoadGenerations) (p : CoursePayload) where
  abbrev pub Matches : Type 0
  Matches =
      (generation ≡ g.counter)
      × (p.schedule.course_year ≡ year)
      × (p.schedule.metadata.course_year ≡ year)
      × (p.status.course_year ≡ year)

not_stale :
    (b : Bool) (x : LoadOutcome) (p : CoursePayload)
    → (if not b then stale else x) ≡ applied p
    → (b ≡ true) × (x ≡ applied p)
not_stale true x p h = (refl, h)
not_stale false x p h = cc

-- Both tests pass when no mismatch is found, and only then.
mismatch_none :
    (a b c : Bool) (m n : LoadMessage)
    → (if not a || not b then some m else if not c then some n else none) ≡ none
    → (a ≡ true) × (b ≡ true) × (c ≡ true)
mismatch_none true true true m n h = (refl, refl, refl)
mismatch_none true true false m n h = cc
mismatch_none true false c m n h = cc
mismatch_none false b c m n h = cc

matching :
    (year : ℕ) (p : CoursePayload)
    → payload_mismatch year p ≡ none
    → (p.schedule.course_year ≡ year)
      × (p.schedule.metadata.course_year ≡ year)
      × (p.status.course_year ≡ year)
unfolding payload_mismatch
matching year p h =
    let (a, b, c) =
      mismatch_none (p.schedule.course_year == year) (p.schedule.metadata.course_year == year)
        (p.status.course_year == year) _ _ h in
    ((==_iff _ year).0 a, (==_iff _ year).0 b, (==_iff _ year).0 c)

judged :
    (p q : CoursePayload) (m : Option LoadMessage) → judge p m ≡ applied q → (m ≡ none) × (p ≡ q)
unfolding judge
judged p q none h = (refl, cc)
judged p q (some x) h = cc

-- What an applied outcome says of the load: it is the newest, and its answers are of the course.
applied-Matches :
    (year generation : ℕ) (reply : Fetched) (g : LoadGenerations) (p : CoursePayload)
    → load_course year generation reply g ≡ applied p
    → (reply ≡ answered p.schedule p.status) × Matches year generation g p
unfolding load_course is_current
applied-Matches year generation (answered a b) g p h =
    let (newest, e) = not_stale (generation == g.counter) _ p h in
    let (fine, same) = judged (record { schedule = a; status = b }) p _ e in
    let fetched : answered a b ≡ answered p.schedule p.status =
      ap (λ q. answered q.schedule q.status) same in
    let (x, y, z) = matching year p (subst (λ q. payload_mismatch year q ≡ none) same fine) in
    (fetched, ((==_iff generation g.counter).0 newest, x, y, z))
applied-Matches year generation (threw m) g p h =
    let (newest, e) = not_stale (generation == g.counter) _ p h in cc

-- An applied outcome of a load brings two documents of the course that it asked for.
abbrev pub Brings : LoadOutcome → ℕ → Type 0
Brings stale c = Unit
Brings (failed m) c = Unit
Brings (applied p) c =
    (p.schedule.course_year ≡ c)
    × (p.schedule.metadata.course_year ≡ c)
    × (p.status.course_year ≡ c)

pub load_course-Brings :
    (c course generation : ℕ) (reply : Fetched) (g : LoadGenerations) (o : LoadOutcome)
    → load_course course generation reply g ≡ o
    → (generation ≡ g.counter → course ≡ c)
    → Brings o c
load_course-Brings c course generation reply g stale e newest = tt
load_course-Brings c course generation reply g (failed m) e newest = tt
load_course-Brings c course generation reply g (applied p) e newest =
    let (now, x, y, z) = (applied-Matches course generation reply g p e).1 in
    (x ∙ newest now, y ∙ newest now, z ∙ newest now)

apply-documents :
    (s : Screen) (o : LoadOutcome) (c : ℕ)
    → Brings o c
    → (d : ℕ) × Shown d s.schedule s.status none
    → (d : ℕ) × Shown d (apply_outcome o s).schedule (apply_outcome o s).status none
unfolding apply_outcome
apply-documents s stale c x y = y
apply-documents s (failed m) c x y = y
apply-documents s (applied p) c (x1, x2, x3) y = (c, (x1, x2, x3, tt))

apply-IsWaiting :
    (s : Screen) (o : LoadOutcome)
    → All (IsWaiting s.course s.generations.counter) s.in_flight
    → All
        (IsWaiting (apply_outcome o s).course (apply_outcome o s).generations.counter)
        (apply_outcome o s).in_flight
unfolding apply_outcome
apply-IsWaiting s stale w = w
apply-IsWaiting s (failed m) w = w
apply-IsWaiting s (applied p) w = w

pub picked_of :
    (s : Screen) (before : List Load) (l : Load) (rest : List Load)
    → s.in_flight ≡ before ++ l ∷ rest
    → IsPaired s
    → IsWaiting s.course s.generations.counter l
picked_of s before l rest e i =
    All-picked (IsWaiting s.course s.generations.counter) before l rest
      (subst (All (IsWaiting s.course s.generations.counter)) e i.waiting)

finish-IsPaired :
    (s : Screen) (before : List Load) (l : Load) (rest : List Load) (reply : Fetched)
    → s.in_flight ≡ before ++ l ∷ rest
    → IsPaired s
    → IsPaired (finish_load l reply (before ++ rest) s)
unfolding finish_load
finish-IsPaired s before l rest reply e i = record {
  documents =
      apply-documents (record s { in_flight = before ++ rest })
        (load_course l.course_year l.generation reply s.generations) l.course_year
        (load_course-Brings l.course_year l.course_year l.generation reply s.generations _ refl
          (λ x. refl))
        i.documents;
  waiting =
      apply-IsWaiting (record s { in_flight = before ++ rest })
        (load_course l.course_year l.generation reply s.generations)
        (All-others (IsWaiting s.course s.generations.counter) before l rest
          (subst (All (IsWaiting s.course s.generations.counter)) e i.waiting));
}

pub Step-IsPaired : {s t : Screen} → Step s t → IsPaired s → IsPaired t
unfolding restore receive_props start_load select_course select_group next invalidate
Step-IsPaired {s} (restores year g h) i = record {
  documents = i.documents;
  waiting = IsWaiting-older s.course year s.generations.counter s.in_flight i.waiting;
}
Step-IsPaired receives i = record { documents = i.documents; waiting = i.waiting }
Step-IsPaired {s} (loads h) i = record {
  documents = i.documents;
  waiting = (
    (omega arith, λ e. refl),
    IsWaiting-older s.course s.course s.generations.counter s.in_flight i.waiting,
  );
}
Step-IsPaired {s} (settles before l rest reply e) i = finish-IsPaired s before l rest reply e i
Step-IsPaired {s} (selects year g) i = elim (Bool-cases (year == s.course)) [
  | inl e ↦ rw (e, select_course) i
  | inr e ↦
      rw (e, select_course)
        (record {
          documents = (year, tt);
          waiting = IsWaiting-older s.course year s.generations.counter s.in_flight i.waiting;
        })
]
Step-IsPaired (picks g h) i = record { documents = i.documents; waiting = i.waiting }

pub Reach-IsPaired : (year : ℕ) (s : Screen) → Reach (initial year) s → IsPaired s
unfolding initial
Reach-IsPaired year s here = record { documents = (year, tt); waiting = tt }
Reach-IsPaired year s (after r step) = Step-IsPaired step (Reach-IsPaired year _ r)

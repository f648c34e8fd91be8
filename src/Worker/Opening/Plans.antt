-- ===== src/Worker/Opening/Plans.antt =====
-- What the plan of a publication says of its descriptor: `planFromDescriptor` of
-- worker/src/publisher.ts, and the markers that `storedFileIds` reads.
use utm_curs_i_orar.Prelude.{
  ℕ, ◌+◌, ◌≡◌, refl, sym, subst, Bool, true, false, ◌||◌, Option, none, some, List, [], ◌∷◌, ◌++◌,
  map, ◌⊎◌, inl, inr, All, if◌then◌else◌, Bool-cases,
}
use utm_curs_i_orar.Text.{Text, codes, text_eq}
use utm_curs_i_orar.Text.Laws.{text_eq_iff}
use utm_curs_i_orar.Worker.Types.{
  PendingFile, PendingDescriptor, FileStatus, needed, stored, PublicationPlanFile, PublicationPlan,
}
use utm_curs_i_orar.Worker.Keys.{pending_completion_key}
use utm_curs_i_orar.Worker.Bucket.{Object, ◌>>=◌}
use utm_curs_i_orar.Worker.Bucket.Rules.{
  Action, got, History, Ensures, at_done, at_get, Ensures-mono, Ensures-since, Happened,
}
use utm_curs_i_orar.Worker.Platform.{Platform}
use utm_curs_i_orar.Worker.Instants.{snapshot_id_instant, pending_max_age_ms}
use utm_curs_i_orar.Worker.Policy.{contains}
use utm_curs_i_orar.Worker.Descriptors.{stored_from}

module _ (snapshot_id : Text) (Status : Text → FileStatus → Type 0) where
  -- An entry of the plan is of the file, with the path to upload it to.
  pub record IsEntry (file : PendingFile) (entry : PublicationPlanFile) : Type 0 where
    pub same_id : entry.file_id ≡ file.file_id
    pub same_filename : entry.filename ≡ file.filename
    pub same_source_url : entry.source_url ≡ file.source_url
    pub uploads_to :
        entry.upload_path
        ≡ codes "/publications/" ++ (snapshot_id ++ (codes "/files/" ++ file.file_id))
    pub has_status : Status file.file_id entry.status

  -- The entries are of the files, one by one and in their order.
  abbrev pub Entries : List PendingFile → List PublicationPlanFile → Type 0
  Entries [] [] = Unit
  Entries [] (entry ∷ entries) = ⊥
  Entries (file ∷ files) [] = ⊥
  Entries (file ∷ files) (entry ∷ entries) = IsEntry file entry × Entries files entries

  module _ (T : PendingFile → Type 0) (g : PendingFile → PublicationPlanFile)
      (give : (file : PendingFile) → T file → IsEntry file (g file)) where
    pub map-Entries : (files : List PendingFile) → All T files → Entries files (map g files)
    map-Entries [] h = tt
    map-Entries (file ∷ files) h = (give file h.0, map-Entries files h.1)

-- The end of the window in which the snapshot may be published.
abbrev pub IsExpiry : Platform → Text → Option ℕ → Type 0
IsExpiry p at none = Unit
IsExpiry p at (some t) = at ≡ p.to_iso (t + pending_max_age_ms)

pub window-IsExpiry :
    (p : Platform) (now : ℕ) (instant : Option ℕ)
    → IsExpiry p
        (p.to_iso ((elim instant [ none ↦ now | some t ↦ t ]) + pending_max_age_ms))
        instant
window-IsExpiry p now none = tt
window-IsExpiry p now (some t) = refl

-- The plan is of the descriptor, and says of each of its files a status of this kind.
pub record IsPlanOf (p : Platform) (Status : Text → FileStatus → Type 0) (d : PendingDescriptor)
    (plan : PublicationPlan) : Type 0 where
  pub of_snapshot : plan.snapshot_id ≡ d.snapshot_id
  pub of_operation : plan.operation_id ≡ d.operation_id
  pub of_page : plan.page_api_sha256 ≡ d.page_api_sha256
  pub of_instant : plan.created_at ≡ d.created_at
  pub of_window : IsExpiry p plan.expires_at (snapshot_id_instant d.snapshot_id)
  pub entries : Entries d.snapshot_id Status d.files plan.files

module _ {A : Type 0} {P Q : A → Type 0} (f : (a : A) → P a → Q a) where
  pub All-map : (xs : List A) → All P xs → All Q xs
  All-map [] h = tt
  All-map (x ∷ xs) h = (f x h.0, All-map xs h.1)

or_left : (a b : Bool) → a ≡ true → (a || b) ≡ true
or_left true b h = refl
or_left false b h = cc

or_right : (a b : Bool) → b ≡ true → (a || b) ≡ true
or_right true b h = refl
or_right false b h = h

contains-All :
    (P : Text → Type 0) (t : Text) (ts : List Text) → All P ts → contains t ts ≡ true → P t
unfolding contains
contains-All P t [] h e = let x : false ≡ true = e in cc
contains-All P t (u ∷ us) h e = elim (Bool-cases (text_eq t u)) [
  | inl same ↦ subst P (sym ((text_eq_iff t u).0 same)) h.0
  | inr other ↦ contains-All P t us h.1 (rw other at e)
]

module _ (snapshot_id : Text) where
  -- A completion marker was read for this file.
  abbrev pub HasMarker : History → Text → Type 0
  HasMarker h t = (o : Object) × Happened (got (pending_completion_key snapshot_id t) (some o)) h

  -- A file is stored when its completion marker was read, and needed when none was there.
  abbrev pub IsStatus : History → Text → FileStatus → Type 0
  IsStatus h t stored = HasMarker h t
  IsStatus h t needed = Happened (got (pending_completion_key snapshot_id t) none) h

  abbrev pub Settles : List Text → History → PendingFile → Type 0
  Settles ids h file =
      IsStatus h file.file_id (if contains file.file_id ids then stored else needed)

  -- What is known of the ids that were found, for the files that were asked.
  abbrev Finds : List Text → List PendingFile → History → List Text → Type 0
  Finds found files h ids =
      All (HasMarker h) ids
      × All
          (λ (file : PendingFile).
            IsStatus h file.file_id needed ⊎ (contains file.file_id ids ≡ true))
          files
      × ((t : Text) → contains t found ≡ true → contains t ids ≡ true)

  module _ (P : History → Action → Type 0) where
    one_more :
        (file : PendingFile) (files : List PendingFile) (found : List Text) (h : History)
        (o : Option Object)
        → ((ids : List Text) (h' : History)
            → All (HasMarker h') ids
            → Ensures P (Finds ids files) h' (stored_from snapshot_id files ids))
        → All (HasMarker h) found
        → Ensures P
            (Finds found (file ∷ files))
            (got (pending_completion_key snapshot_id file.file_id) o ∷ h)
            (stored_from snapshot_id files
              (elim o [ none ↦ found | some _ ↦ file.file_id ∷ found ]))
    unfolding contains
    one_more file files found h none rest seen =
        Ensures-mono (λ h' a x. x.0) (λ h' ids x. let ((a, b, c), k) = x in (a, (inl k, b), c))
          (Ensures-since (λ h'. IsStatus h' file.file_id needed) (λ e h' k. inr k) _
            (stored_from snapshot_id files found) (inl refl)
            (rest found _ (All-map (λ t k. (k.0, inr k.1)) found seen)))
    one_more file files found h (some o) rest seen =
        Ensures-mono (λ h' a x. x)
          (λ h' ids x.
            let (a, b, c) = x in
            (
              a,
              (
                inr (
                    c file.file_id (
                      or_left (text_eq file.file_id file.file_id) (contains file.file_id found)
                        ((text_eq_iff file.file_id file.file_id).1 refl))),
                b,
              ),
              λ t e. c t (or_right (text_eq t file.file_id) (contains t found) e),
            ))
          (rest (file.file_id ∷ found) _
            ((o, inl refl), All-map (λ t k. (k.0, inr k.1)) found seen))

    stored-Finds :
        (files : List PendingFile) (found : List Text) (h : History)
        → All (HasMarker h) found
        → Ensures P (Finds found files) h (stored_from snapshot_id files found)
    unfolding stored_from ◌>>=◌
    stored-Finds [] found h seen = at_done (seen, tt, λ t e. e)
    stored-Finds (file ∷ files) found h seen =
        at_get (λ o. one_more file files found h o (λ ids h'. stored-Finds files ids h') seen)

    settled :
        (h : History) (ids : List Text) (file : PendingFile)
        → All (HasMarker h) ids
        → IsStatus h file.file_id needed ⊎ (contains file.file_id ids ≡ true)
        → Settles ids h file
    settled h ids file seen x = elim (Bool-cases (contains file.file_id ids)) [
      | inl e ↦ rw e (contains-All (HasMarker h) file.file_id ids seen e)
      | inr e ↦ rw e (elim x [ inl k ↦ k | inr e' ↦ let y = e in cc ])
    ]

    -- The ids that are found settle the status of every file.
    pub stored_from-Settles :
        (files : List PendingFile) (h : History)
        → Ensures P (λ h' ids. All (Settles ids h') files) h (stored_from snapshot_id files [])
    stored_from-Settles files h =
        Ensures-mono (λ h' a x. x)
          (λ h' ids x. All-map (λ file k. settled h' ids file x.0 k) files x.1)
          (stored-Finds files [] h tt)

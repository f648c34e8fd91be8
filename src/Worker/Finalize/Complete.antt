-- ===== src/Worker/Finalize/Complete.antt =====
-- What `inspect` and `collect` establish: when nothing is missing, every file of the descriptor has
-- its object and a marker that agrees, and the manifest lists exactly those files.
use utm_curs_i_orar.Prelude.{
  ◌≡◌, refl, subst, true, Option, none, some, List, [], ◌∷◌, inl, inr, Bool-cases, Option-cases,
  if◌then◌else◌,
}
use utm_curs_i_orar.Text.{Text}
use utm_curs_i_orar.Worker.Types.{PendingFile, Origin, CompletionMarker, SnapshotFile}
use utm_curs_i_orar.Worker.Keys.{pending_completion_key}
use utm_curs_i_orar.Worker.Bucket.{Object, ◌>>=◌}
use utm_curs_i_orar.Worker.Bucket.Rules.{
  Action, Event, got, History, Ensures, at_done, at_get, at_bind, Ensures-mono, Happened,
}
use utm_curs_i_orar.Worker.Documents.{as_marker}
use utm_curs_i_orar.Worker.Finalize.{
  Inspected, inspect, Collected, gathered, bad_marker, collect_one, collect, add_file,
  marker_agrees, manifest_file,
}

abbrev pub Grows : History → History → Type 0
Grows h h' = (e : Event) → Happened e h → Happened e h'

module _ (origin : Origin) (snapshot_id : Text) where
  -- One file with the object and the marker that were read, and its entry in the manifest.
  abbrev pub IsUploaded : History → PendingFile → SnapshotFile → Type 0
  IsUploaded h file entry =
      (object found : Object) × (m : CompletionMarker) × Happened (got file.r2_key (some object)) h
      × Happened (got (pending_completion_key snapshot_id file.file_id) (some found)) h
      × (as_marker found.body ≡ some m)
      × (marker_agrees snapshot_id file m ≡ true)
      × (entry ≡ manifest_file origin file object m)

  abbrev pub AllUploaded : History → List PendingFile → List SnapshotFile → Type 0
  AllUploaded h [] [] = Unit
  AllUploaded h [] (_ ∷ _) = ⊥
  AllUploaded h (_ ∷ _) [] = ⊥
  AllUploaded h (file ∷ files) (entry ∷ entries) =
      IsUploaded h file entry × AllUploaded h files entries

  abbrev pub Inspects : History → List PendingFile → List Inspected → Type 0
  Inspects h [] [] = Unit
  Inspects h [] (_ ∷ _) = ⊥
  Inspects h (_ ∷ _) [] = ⊥
  Inspects h (file ∷ files) (i ∷ is) =
      (i.file ≡ file)
      × Happened (got file.r2_key i.object) h
      × Happened (got (pending_completion_key snapshot_id file.file_id) i.marker) h
      × Inspects h files is

  pub AllUploaded-Grows :
      (h h' : History)
      → Grows h h'
      → (files : List PendingFile) (entries : List SnapshotFile) → AllUploaded h files entries
      → AllUploaded h' files entries
  AllUploaded-Grows h h' g [] [] u = u
  AllUploaded-Grows h h' g [] (_ ∷ _) u = u
  AllUploaded-Grows h h' g (_ ∷ _) [] u = u
  AllUploaded-Grows h h' g (file ∷ files) (entry ∷ entries) ((o, f, m, a, b, c, d, e), us) =
      ((o, f, m, g _ a, g _ b, c, d, e), AllUploaded-Grows h h' g files entries us)

  pub inspect_lem :
      {P : History → Action → Type 0} (h : History) (files : List PendingFile)
      → Ensures P (λ h' is. Grows h h' × Inspects h' files is) h (inspect snapshot_id files)
  unfolding inspect ◌>>=◌
  inspect_lem h [] = at_done ((λ e x. x), tt)
  inspect_lem h (file ∷ files) = at_get (λ o. at_get (λ m. at_bind _ (
      Ensures-mono (λ h' a p. p)
        (λ h' is (g, rest).
          at_done ((λ e x. g e (inr (inr x))), (refl, g _ (inr (inl refl)), g _ (inl refl), rest)))
        (inspect_lem
          (got (pending_completion_key snapshot_id file.file_id) m ∷ got file.r2_key o ∷ h)
          files))))

  abbrev Added :
      PendingFile → Option Object → Option Object → Collected → List SnapshotFile → Type 0
  Added file object found rest entries =
      (o f : Object) × (m : CompletionMarker) × (later : List SnapshotFile) × (object ≡ some o)
      × (found ≡ some f)
      × (as_marker f.body ≡ some m)
      × (marker_agrees snapshot_id file m ≡ true)
      × (entries ≡ manifest_file origin file o m ∷ later)
      × (rest ≡ gathered [] later)

  agreed_lem :
      (file : PendingFile) (o f : Object) (m : CompletionMarker) (rest : Collected)
      (entries : List SnapshotFile)
      → as_marker f.body ≡ some m
      → (if marker_agrees snapshot_id file m
          then add_file (manifest_file origin file o m) rest
          else bad_marker)
        ≡ gathered [] entries
      → Added file (some o) (some f) rest entries
  agreed_lem file o f m (gathered (k ∷ ks) fs) entries a e =
      elim (Bool-cases (marker_agrees snapshot_id file m)) [
        | inl agrees ↦
            let k' : gathered (k ∷ ks) (manifest_file origin file o m ∷ fs) ≡ gathered [] entries =
              rw agrees at e in
            cc
        | inr differs ↦ let k' : bad_marker ≡ gathered [] entries = rw differs at e in cc
      ]
  agreed_lem file o f m (gathered [] fs) entries a e =
      elim (Bool-cases (marker_agrees snapshot_id file m)) [
        | inl agrees ↦
            let k : gathered [] (manifest_file origin file o m ∷ fs) ≡ gathered [] entries =
              rw agrees at e in
            (o, f, m, fs, refl, refl, a, agrees, cc, refl)
        | inr differs ↦ let k : bad_marker ≡ gathered [] entries = rw differs at e in cc
      ]
  agreed_lem file o f m bad_marker entries a e =
      elim (Bool-cases (marker_agrees snapshot_id file m)) [
        | inl agrees ↦ let k : bad_marker ≡ gathered [] entries = rw agrees at e in cc
        | inr differs ↦ let k : bad_marker ≡ gathered [] entries = rw differs at e in cc
      ]

  collect_one_lem :
      (file : PendingFile) (object found : Option Object) (rest : Collected)
      (entries : List SnapshotFile)
      → collect_one origin snapshot_id file object found rest ≡ gathered [] entries
      → Added file object found rest entries
  unfolding collect_one
  collect_one_lem file none found (gathered k f) entries e = cc
  collect_one_lem file none found bad_marker entries e = cc
  collect_one_lem file (some o) none (gathered k f) entries e = cc
  collect_one_lem file (some o) none bad_marker entries e = cc
  collect_one_lem file (some o) (some f) rest entries e = elim (Option-cases (as_marker f.body)) [
    | inl missing ↦ let k : bad_marker ≡ gathered [] entries = rw (missing, collect_one) at e in cc
    | inr (m, found) ↦ agreed_lem file o f m rest entries found (rw (found, collect_one) at e)
  ]

  -- Nothing missing and no bad marker: all files are there.
  pub collect-AllUploaded :
      (h : History) (files : List PendingFile) (is : List Inspected) (entries : List SnapshotFile)
      → Inspects h files is
      → collect origin snapshot_id is ≡ gathered [] entries
      → AllUploaded h files entries
  unfolding collect
  collect-AllUploaded h [] [] [] s e = tt
  collect-AllUploaded h [] [] (_ ∷ _) s e = cc
  collect-AllUploaded h [] (_ ∷ _) entries s e = absurd s
  collect-AllUploaded h (_ ∷ _) [] entries s e = absurd s
  collect-AllUploaded h (file ∷ files) (i ∷ is) [] (same, a, b, rest) e =
      let (o, f, m, later, there, found, read, agrees, same', e') =
        collect_one_lem i.file i.object i.marker _ [] e in
      cc
  collect-AllUploaded h (file ∷ files) (i ∷ is) (entry ∷ entries) (same, a, b, rest) e =
      let (o, f, m, later, there, found, read, agrees, same', e') =
        collect_one_lem i.file i.object i.marker _ (entry ∷ entries) e in
      let head_eq : entry ≡ manifest_file origin i.file o m = cc in
      let tail_eq : entries ≡ later = cc in
      (
        (
          o,
          f,
          m,
          subst (λ x. Happened (got file.r2_key x) h) there a,
          subst (λ x. Happened (got (pending_completion_key snapshot_id file.file_id) x) h) found b,
          read,
          subst (λ x. marker_agrees snapshot_id x m ≡ true) same agrees,
          subst (λ x. entry ≡ manifest_file origin x o m) same head_eq,
        ),
        collect-AllUploaded h files is entries rest (rw tail_eq e'),
      )

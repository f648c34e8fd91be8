-- ===== src/Worker/Finalize/Succeeding.antt =====
-- A finalize that runs alone over a complete snapshot publishes it.
use utm_curs_i_orar.Prelude.{
  ◌≡◌, ◌≢◌, refl, sym, ◌∙◌, subst, true, false, none, some, List, [], ◌∷◌, length,
}
use utm_curs_i_orar.Text.{Text, text_eq}
use utm_curs_i_orar.Text.Laws.{text_eq_iff}
use utm_curs_i_orar.Worker.Types.{
  PendingFile, PendingDescriptor, SnapshotFile, FinalizeResult, published, manifest, current, Body,
}
use utm_curs_i_orar.Worker.Keys.{
  current_key, snapshot_manifest_key, snapshot_page_api_key, pending_descriptor_key,
  pending_completion_key,
}
use utm_curs_i_orar.Worker.Bucket.{Object, if_absent, ◌>>=◌}
use utm_curs_i_orar.Worker.Bucket.Runs.{R2, permitted, run, run-bind}
use utm_curs_i_orar.Worker.Platform.{Platform}
use utm_curs_i_orar.Worker.Instants.{snapshot_work_expired}
use utm_curs_i_orar.Worker.Pointer.{build_current_pointer}
use utm_curs_i_orar.Worker.Descriptors.{descriptor_file_error, own_descriptor, read_descriptor}
use utm_curs_i_orar.Worker.Finalize.{
  Clock, Inspected, inspect, gathered, collect, points_at, current_points_at, swap_condition,
  manifest_of, swap, close, settle, with_descriptor, run_finalize,
}

module _ (r2 : R2) (p : Platform) (clock : Clock) (snapshot_id : Text) where
  open r2 use {State, look, store, store_made, store_other}

  -- The objects and markers of the files as the state has them.
  unfoldable pub inspected : State → List PendingFile → List Inspected
  inspected s [] = []
  inspected s (file ∷ files) =
      record {
        file = file;
        object = look s file.r2_key;
        marker = look s (pending_completion_key snapshot_id file.file_id);
      }
      ∷ inspected s files

  run-inspect :
      (s : State) (files : List PendingFile)
      → run r2 (inspect snapshot_id files) s ≡ (s, inspected s files)
  unfolding run inspect inspected ◌>>=◌
  run-inspect s [] = refl
  run-inspect s (file ∷ files) =
      run-bind r2 (inspect snapshot_id files) _ s ∙ rw (run-inspect s files) refl

  -- The snapshot can be published: nothing of it is missing, its window is open, and current.json
  -- is what the descriptor saw.
  pub record IsComplete (s : State) (d : PendingDescriptor) (entries : List SnapshotFile)
      : Type 0 where
    pub other : points_at p snapshot_id (look s current_key) ≡ false
    pub in_time : snapshot_work_expired snapshot_id clock.at_start ≡ false
    pub still_in_time : snapshot_work_expired snapshot_id clock.at_swap ≡ false
    pub described :
        own_descriptor snapshot_id (look s (pending_descriptor_key snapshot_id)) ≡ some d
    pub sound : descriptor_file_error p d ≡ none
    pub page : (o : Object) × (look s (snapshot_page_api_key snapshot_id) ≡ some o)
    pub uploaded : collect d.origin snapshot_id (inspected s d.files) ≡ gathered [] entries
    pub unclosed : look s (snapshot_manifest_key snapshot_id) ≡ none
    pub unmoved : permitted (swap_condition d.current_etag) (look s current_key) ≡ true

  abbrev pub Holds : State → Text → Body → Type 0
  Holds s k b = (o : Object) × (look s k ≡ some o) × (o.body ≡ b)

  abbrev pub IsPublished : PendingDescriptor → List SnapshotFile → State × FinalizeResult → Type 0
  IsPublished d entries (s, r) =
      (r ≡ published)
      × Holds s (snapshot_manifest_key snapshot_id) (manifest (manifest_of p d snapshot_id entries))
      × Holds s current_key (
          current (
            build_current_pointer snapshot_id clock.published_at d.source.page_modified_gmt
              d.source.page_id (length entries)))

  keys_differ : text_eq current_key (snapshot_manifest_key snapshot_id) ≡ false
  unfolding text_eq snapshot_manifest_key
  keys_differ = refl

  manifest_key-apart : current_key ≢ snapshot_manifest_key snapshot_id
  manifest_key-apart e =
      let same : text_eq current_key (snapshot_manifest_key snapshot_id) ≡ true =
        (text_eq_iff _ _).1 e in
      cc (same, keys_differ)

  swap_succeeds :
      (s : State) (d : PendingDescriptor) (entries : List SnapshotFile)
      → snapshot_work_expired snapshot_id clock.at_swap ≡ false
      → permitted (swap_condition d.current_etag) (look s current_key) ≡ true
      → Holds s (snapshot_manifest_key snapshot_id) (manifest (manifest_of p d snapshot_id entries))
      → IsPublished d entries (run r2 (swap p clock snapshot_id d entries) s)
  unfolding run swap ◌>>=◌
  swap_succeeds s d entries in_time may (m, there, is) =
      let b : Body = current (
        build_current_pointer snapshot_id clock.published_at d.source.page_modified_gmt
          d.source.page_id (length entries)) in
      let (o, made, stands, body, custom) =
        store_made s current_key b (swap_condition d.current_etag) [] may in
      rw in_time (
        rw made (
          refl,
          (
            m,
            store_other s current_key (snapshot_manifest_key snapshot_id) b
                  (swap_condition d.current_etag) [] manifest_key-apart
                ∙ there,
            is,
          ),
          (o, stands, body),
        ))

  close_succeeds :
      (s : State) (d : PendingDescriptor) (entries : List SnapshotFile)
      → IsComplete s d entries
      → IsPublished d entries (run r2 (close p clock snapshot_id d entries) s)
  unfolding run close ◌>>=◌
  close_succeeds s d entries c =
      let k : Text = snapshot_manifest_key snapshot_id in
      let b : Body = manifest (manifest_of p d snapshot_id entries) in
      let (o, made, stands, body, custom) =
        store_made s k b if_absent [] (rw (c.unclosed, permitted) refl) in
      let kept : look (store s k b if_absent []).0 current_key ≡ look s current_key =
        store_other s k current_key b if_absent [] (λ e. manifest_key-apart (sym e)) in
      rw made (
        swap_succeeds (store s k b if_absent []).0 d entries c.still_in_time (rw kept c.unmoved)
          (o, stands, body))

  run-settled :
      (s : State) (d : PendingDescriptor) (entries : List SnapshotFile)
      → IsComplete s d entries
      → run r2 (run_finalize p clock snapshot_id) s ≡ run r2 (close p clock snapshot_id d entries) s
  unfolding run run_finalize with_descriptor settle current_points_at read_descriptor ◌>>=◌
  run-settled s d entries c =
      let (page, there) = c.page in
      rw (run, c.other, c.in_time, c.described, c.sound, there)
        (run-bind r2 (inspect snapshot_id d.files)
            (λ i. settle p clock snapshot_id d (collect d.origin snapshot_id i)) s
          ∙ rw (run-inspect s d.files, c.uploaded) refl)

  -- Over a bucket that behaves as documented, a finalize that runs alone publishes: where
  -- current.json points elsewhere and is what the snapshot's own sound descriptor saw, the page and
  -- for each file the object and a marker that agrees are there, no manifest is there yet and the
  -- window is open throughout, it ends with `published`, the manifest of exactly these files stands
  -- at its key, and current.json points to the snapshot.
  pub run_finalize-IsPublished :
      (s : State) (d : PendingDescriptor) (entries : List SnapshotFile)
      → IsComplete s d entries
      → IsPublished d entries (run r2 (run_finalize p clock snapshot_id) s)
  run_finalize-IsPublished s d entries c =
      subst (λ x. IsPublished d entries x) (sym (run-settled s d entries c))
        (close_succeeds s d entries c)

-- ===== src/Worker/Finalize/Publishing.antt =====
-- What `run_finalize` may write, and when: on every branch, whatever the bucket answers.
use utm_curs_i_orar.Prelude.{
  ◌≡◌, ◌≢◌, refl, true, false, Option, none, some, List, [], ◌∷◌, ◌⊎◌, inl, inr, length,
  if◌then◌else◌, Bool-cases, Option-cases,
}
use utm_curs_i_orar.Text.{Text}
use utm_curs_i_orar.Worker.Types.{
  PendingDescriptor, SnapshotFile, FinalizeResult, published, already_current, superseded,
  incomplete, failed, Body, manifest, current,
}
use utm_curs_i_orar.Worker.Keys.{
  current_key, snapshot_page_api_key, snapshot_manifest_key, pending_descriptor_key,
}
use utm_curs_i_orar.Worker.Bucket.{Object, Cond, if_absent, if_etag, ◌>>=◌}
use utm_curs_i_orar.Worker.Bucket.Rules.{
  Action, putting, streaming, deleting, sending, Event, got, wrote, History, Ensures, at_done,
  at_get, at_put, at_if, at_bind, Ensures-mono, Happened,
}
use utm_curs_i_orar.Worker.Instants.{snapshot_work_expired}
use utm_curs_i_orar.Worker.Platform.{Platform}
use utm_curs_i_orar.Worker.Pointer.{build_current_pointer}
use utm_curs_i_orar.Worker.Descriptors.{descriptor_file_error, read_descriptor, own_descriptor}
use utm_curs_i_orar.Worker.Finalize.{
  Clock, collect, Collected, gathered, bad_marker, points_at, current_points_at, swap_condition,
  describes, manifest_of, swap, close, settle, with_descriptor, run_finalize,
}
use utm_curs_i_orar.Worker.Finalize.Complete.{
  AllUploaded, AllUploaded-Grows, inspect_lem, collect-AllUploaded,
}

-- The write passes only if current.json is still absent, or still has that etag.
abbrev pub IsSwapFrom : Option Text → Cond → Type 0
IsSwapFrom none w = w ≡ if_absent
IsSwapFrom (some []) w = w ≡ if_absent
IsSwapFrom (some (c ∷ cs)) w = w ≡ if_etag (c ∷ cs)

swap_condition_lem : (etag : Option Text) → IsSwapFrom etag (swap_condition etag)
swap_condition_lem none = refl
swap_condition_lem (some []) = refl
swap_condition_lem (some (c ∷ cs)) = refl

module _ (p : Platform) (clock : Clock) (snapshot_id : Text) where
  -- The descriptor that was read is sound, the page and all of its files are stored, and `entries`
  -- are those files.
  pub record IsProven (h : History) (d : PendingDescriptor) (entries : List SnapshotFile)
      : Type 0 where
    pub described :
        (o : Object) × Happened (got (pending_descriptor_key snapshot_id) (some o)) h
        × (own_descriptor snapshot_id (some o) ≡ some d)
    pub sound : descriptor_file_error p d ≡ none
    pub page : (o : Object) × Happened (got (snapshot_page_api_key snapshot_id) (some o)) h
    pub uploaded : AllUploaded d.origin snapshot_id h d.files entries

  -- The manifest was created by this invocation, or one that describes the snapshot was there.
  abbrev pub HasManifest : History → PendingDescriptor → List SnapshotFile → Type 0
  HasManifest h d entries =
      ((o : Object) × Happened
          (wrote (snapshot_manifest_key snapshot_id)
            (manifest (manifest_of p d snapshot_id entries)) if_absent [] (some o))
          h)
      ⊎ ((o : Option Object) × Happened (got (snapshot_manifest_key snapshot_id) o) h
          × (describes snapshot_id o ≡ true))

  abbrev pub WritesManifest : History → Text → Body → Cond → Type 0
  WritesManifest h k b w =
      (d : PendingDescriptor) × (entries : List SnapshotFile) × IsProven h d entries
      × (k ≡ snapshot_manifest_key snapshot_id)
      × (b ≡ manifest (manifest_of p d snapshot_id entries))
      × (w ≡ if_absent)

  abbrev pub SwapsCurrent : History → Text → Body → Cond → Type 0
  SwapsCurrent h k b w =
      (d : PendingDescriptor) × (entries : List SnapshotFile) × IsProven h d entries
      × HasManifest h d entries
      × (snapshot_work_expired snapshot_id clock.at_swap ≡ false)
      × (k ≡ current_key)
      × (b
          ≡ current (
              build_current_pointer snapshot_id clock.published_at d.source.page_modified_gmt
                d.source.page_id (length entries)))
      × IsSwapFrom d.current_etag w

  -- The only changes that are made.
  abbrev pub Publishes : History → Action → Type 0
  Publishes h (putting k b w m) = WritesManifest h k b w ⊎ SwapsCurrent h k b w
  Publishes h (streaming k w m) = ⊥
  Publishes h (deleting ks) = ⊥
  Publishes h (sending j) = ⊥

  -- What each outcome tells of the calls.
  abbrev pub Reports : History → FinalizeResult → Type 0
  Reports h published =
      (b : Body) × (w : Cond) × (o : Object) × Happened (wrote current_key b w [] (some o)) h
  Reports h already_current =
      (o : Option Object) × Happened (got current_key o) h × (points_at p snapshot_id o ≡ true)
  Reports h superseded = (b : Body) × (w : Cond) × Happened (wrote current_key b w [] none) h
  Reports h (incomplete missing) = missing ≢ []
  Reports h (failed none) = Unit
  Reports h (failed (some false)) = Unit
  Reports h (failed (some true)) = ⊥

  grown :
      (e : Event) (h : History) (d : PendingDescriptor) (entries : List SnapshotFile)
      → IsProven h d entries
      → IsProven (e ∷ h) d entries
  grown e h d entries v = record {
    described = (v.described.0, inr v.described.1, v.described.2);
    sound = v.sound;
    page = (v.page.0, inr v.page.1);
    uploaded =
        AllUploaded-Grows d.origin snapshot_id h (e ∷ h) (λ x y. inr y) d.files entries v.uploaded;
  }

  -- A lost swap: the pointer that stands there now decides.
  swap_result :
      (h : History) (b : Body) (w : Cond) (o : Option Object)
      → Reports
          (got current_key o ∷ wrote current_key b w [] none ∷ h)
          (if points_at p snapshot_id o then already_current else superseded)
  swap_result h b w o = elim (Bool-cases (points_at p snapshot_id o)) [
    | inl mine ↦ rw mine (o, inl refl, mine)
    | inr other ↦ rw other (b, w, inr (inl refl))
  ]

  swap-Publishes :
      (h : History) (d : PendingDescriptor) (entries : List SnapshotFile)
      → IsProven h d entries
      → HasManifest h d entries
      → Ensures Publishes Reports h (swap p clock snapshot_id d entries)
  unfolding swap ◌>>=◌ current_points_at
  swap-Publishes h d entries v m =
      at_if (snapshot_work_expired snapshot_id clock.at_swap) (λ expired. at_done tt)
        (λ in_time.
          at_put (inr (d, entries, v, m, in_time, refl, refl, swap_condition_lem d.current_etag))
            (elim [
              | some o ↦ at_done (_, _, o, inl refl)
              | none ↦ at_get (λ o. at_done (swap_result h _ _ o))
            ]))

  close-Publishes :
      (h : History) (d : PendingDescriptor) (entries : List SnapshotFile)
      → IsProven h d entries
      → Ensures Publishes Reports h (close p clock snapshot_id d entries)
  unfolding close ◌>>=◌
  close-Publishes h d entries v = at_put (inl (d, entries, v, refl, refl, refl)) (elim [
    | some o ↦ swap-Publishes _ d entries (grown _ h d entries v) (inl (o, inl refl))
    | none ↦ at_get (λ o.
        at_if (describes snapshot_id o)
          (λ same.
            swap-Publishes _ d entries (grown _ _ d entries (grown _ h d entries v))
              (inr (o, inl refl, same)))
          (λ other. at_done tt))
  ])

  settle-Publishes :
      (h : History) (d : PendingDescriptor) (c : Collected)
      → ((entries : List SnapshotFile) → c ≡ gathered [] entries → IsProven h d entries)
      → Ensures Publishes Reports h (settle p clock snapshot_id d c)
  unfolding settle
  settle-Publishes h d bad_marker v = at_done tt
  settle-Publishes h d (gathered (key ∷ keys) entries) v = at_done (λ e. cc)
  settle-Publishes h d (gathered [] entries) v = close-Publishes h d entries (v entries refl)

  -- With a sound descriptor: after the reads, nothing missing means that all is proven.
  described-Publishes :
      (h : History) (d : PendingDescriptor) (o : Object)
      → Happened (got (pending_descriptor_key snapshot_id) (some o)) h
      → own_descriptor snapshot_id (some o) ≡ some d
      → Ensures Publishes Reports h (with_descriptor p clock snapshot_id (some d))
  unfolding with_descriptor ◌>>=◌
  described-Publishes h d o there own = elim (Option-cases (descriptor_file_error p d)) [
    | inr (e, bad) ↦ rw (bad, with_descriptor) (at_done tt)
    | inl sound ↦
        rw (sound, with_descriptor)
          (at_get (elim [
            | none ↦ at_done tt
            | some page ↦ at_bind _ (
                Ensures-mono (λ h' a never. absurd never)
                  (λ h' is (g, seen).
                    settle-Publishes h' d (collect d.origin snapshot_id is) (λ entries none_missing.
                      record {
                        described = (o, g _ (inr there), own);
                        sound = sound;
                        page = (page, g _ (inl refl));
                        uploaded =
                            collect-AllUploaded d.origin snapshot_id h' d.files is entries seen
                              none_missing;
                      }))
                  (inspect_lem d.origin snapshot_id {P = λ _ _. ⊥} _ d.files))
          ]))
  ]

  read-Publishes :
      (h : History) (o : Option Object)
      → Happened (got (pending_descriptor_key snapshot_id) o) h
      → Ensures Publishes Reports h
          (with_descriptor p clock snapshot_id (own_descriptor snapshot_id o))
  unfolding with_descriptor
  read-Publishes h none there = at_done tt
  read-Publishes h (some o) there = elim (Option-cases (own_descriptor snapshot_id (some o))) [
    | inl foreign ↦ rw foreign (at_done tt)
    | inr (d, own) ↦ rw own (described-Publishes h d o there own)
  ]

  -- Whatever was called before and whatever the bucket answers, finalize writes nothing but this snapshot's manifest,
  -- create-only, and current.json. It writes either only after it has read this snapshot's own
  -- descriptor, found it free of errors, found the stored page, and found for each of the
  -- descriptor's files the object and a marker that agrees with it; the manifest lists exactly
  -- these files. It writes current.json only after it has created that manifest or found one that
  -- describes the snapshot, inside the publication window, and only on the condition that
  -- current.json is still what the descriptor saw. Its outcome reports what the calls did:
  -- published, a swap that was made; superseded, one that was lost; already current, a pointer to
  -- the snapshot that was read; incomplete, at least one missing key. No error is marked as
  -- retryable.
  pub run_finalize-Ensures :
      (h : History) → Ensures Publishes Reports h (run_finalize p clock snapshot_id)
  unfolding run_finalize ◌>>=◌ current_points_at read_descriptor
  run_finalize-Ensures h = at_get (λ o. elim (Bool-cases (points_at p snapshot_id o)) [
    | inl mine ↦ rw mine (at_done (o, inl refl, mine))
    | inr other ↦ rw other (
        at_if (snapshot_work_expired snapshot_id clock.at_start) (λ expired. at_done tt)
          (λ in_time. at_get (λ found. read-Publishes _ found (inl refl))))
  ])

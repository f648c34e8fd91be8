-- ===== src/Worker/Maintenance/Reconcile/Requeuing.antt =====
-- Which jobs the periodic repair sends.
use utm_curs_i_orar.Prelude.{
  ℕ, zero, suc, ◌+◌, ◌≤◌, ◌<◌, ◌≡◌, refl, true, not, Option, none, some, List, [], ◌∷◌, ◌++◌, map,
  inl, inr, All, Bool-cases, Option-cases, leb, length, arith,
}
use utm_curs_i_orar.Text.{Text, codes, nullable_eq}
use utm_curs_i_orar.Worker.Types.{
  PendingDescriptor, PublicationJob, finalize, ReconcileResult, reconciled, reconcile_failed,
}
use utm_curs_i_orar.Worker.Keys.{current_key, snapshot_manifest_key, pending_descriptor_key}
use utm_curs_i_orar.Worker.Bucket.{Proc, Object, ◌>>=◌}
use utm_curs_i_orar.Worker.Bucket.Rules.{
  Action, putting, streaming, deleting, sending, got, wrote, streamed, deleted, listed, sent,
  History, Ensures, at_done, at_get, at_put, at_list, at_send, at_if, at_bind, Ensures-mono,
  Happened,
}
use utm_curs_i_orar.Worker.Platform.{Platform}
use utm_curs_i_orar.Worker.Descriptors.{own_descriptor, read_descriptor, descriptor_file_error}
use utm_curs_i_orar.Worker.Opening.{listed_id}
use utm_curs_i_orar.Worker.Maintenance.{
  etag_of, is_cursor_lost, read_scan_cursor, write_scan_cursor, RetentionResult, swept,
  retention_threw,
}
use utm_curs_i_orar.Worker.Maintenance.Sweeping.{deletions, Sweeps}
use utm_curs_i_orar.Worker.Maintenance.Retention.{run_retention-Ensures}
use utm_curs_i_orar.Worker.Maintenance.Reconcile.{
  max_reconciled_snapshots, reconcile_scan_pages, scan_pending, distinct, is_before, insert_latest,
  latest_first, is_due, due_ids, candidates, requeue_described, requeue_unless_closed, requeue,
  answer_reconcile, close_reconcile, repair, run_reconcile,
}

-- The jobs sent so far.
abbrev pub sends : History → ℕ
sends [] = 0
sends (got k o ∷ h) = sends h
sends (wrote k b w m o ∷ h) = sends h
sends (streamed k w m u ∷ h) = sends h
sends (deleted ks ∷ h) = sends h
sends (listed p d n t l ∷ h) = sends h
sends (sent j ∷ h) = suc (sends h)

module _ (p : Platform) (now : ℕ) where
  -- A finalize of a publication that is due, has no manifest, and whose own sound descriptor saw
  -- the current.json that was read.
  abbrev pub Requeues : History → PublicationJob → Type 0
  Requeues h j =
      (id : Text) × (d : PendingDescriptor) × (o : Object) × (current : Option Object) × (j
        ≡ finalize id)
      × (is_due now id ≡ true)
      × Happened (got (snapshot_manifest_key id) none) h
      × Happened (got (pending_descriptor_key id) (some o)) h
      × (own_descriptor id (some o) ≡ some d)
      × (descriptor_file_error p d ≡ none)
      × Happened (got current_key current) h
      × (nullable_eq d.current_etag (etag_of current) ≡ true)
      × (sends h < max_reconciled_snapshots)

  abbrev pub Repairs : History → Action → Type 0
  Repairs h (putting k b w m) = Sweeps p now h (putting k b w m)
  Repairs h (streaming k w m) = ⊥
  Repairs h (deleting ks) = Sweeps p now h (deleting ks)
  Repairs h (sending j) = Requeues h j

  abbrev pub Reports : History → Option ReconcileResult → Type 0
  Reports h none = Unit
  Reports h (some (reconciled examined requeued)) = requeued ≤ max_reconciled_snapshots
  Reports h (some reconcile_failed) = Unit

  insert_latest-All :
      (P : Text → Type 0) (t : Text) (us : List Text) → P t → All P us → All P (insert_latest t us)
  unfolding insert_latest
  insert_latest-All P t [] x a = (x, tt)
  insert_latest-All P t (u ∷ us) x (y, a) = elim (Bool-cases (is_before t u)) [
    | inl e ↦ rw e (y, insert_latest-All P t us x a)
    | inr e ↦ rw e (x, (y, a))
  ]

  latest_first-All : (P : Text → Type 0) (ts : List Text) → All P ts → All P (latest_first ts)
  unfolding latest_first
  latest_first-All P [] a = tt
  latest_first-All P (t ∷ ts) (x, a) =
      insert_latest-All P t (latest_first ts) x (latest_first-All P ts a)

  due_ids-All : (ids : List Text) → All (λ id. is_due now id ≡ true) (due_ids now ids)
  unfolding due_ids
  due_ids-All [] = tt
  due_ids-All (id ∷ ids) = elim (Bool-cases (is_due now id)) [
    | inl e ↦ rw e (e, due_ids-All ids)
    | inr e ↦ rw e (due_ids-All ids)
  ]

  candidates-All : (scanned : List Text) → All (λ id. is_due now id ≡ true) (candidates now scanned)
  unfolding candidates
  candidates-All scanned =
      latest_first-All _ (due_ids now (map listed_id (distinct [] scanned))) (due_ids-All _)

  module _ (current : Option Object) where
    abbrev Steady : ℕ → History → Type 0
    Steady n h =
        Happened (got current_key current) h
        × (deletions h ≡ 0)
        × (sends h ≡ n)
        × (n ≤ max_reconciled_snapshots)

    abbrev Goes : History → Proc ℕ → Type 0
    Goes h m = Ensures Repairs (λ h' n. Steady n h') h m

    described-Goes :
        (h : History) (id : Text) (n : ℕ) (next : ℕ → Proc ℕ) (o : Object) (d : PendingDescriptor)
        → ((h' : History) (m : ℕ) → Steady m h' → Goes h' (next m))
        → Steady n h
        → n < max_reconciled_snapshots
        → is_due now id ≡ true
        → own_descriptor id (some o) ≡ some d
        → Happened (got (snapshot_manifest_key id) none) h
        → Happened (got (pending_descriptor_key id) (some o)) h
        → Goes h (requeue_described now p (etag_of current) id n next (some d))
    unfolding requeue_described
    described-Goes h id n next o d e (there, kept, count, few) fewer due own unclosed found =
        at_if (not (nullable_eq d.current_etag (etag_of current)))
          (λ moved. e h n (there, kept, count, few))
          (λ same. elim (Option-cases (descriptor_file_error p d)) [
            | inr (x, bad) ↦ rw (bad, requeue_described) (e h n (there, kept, count, few))
            | inl sound ↦
                rw (sound, requeue_described)
                  (at_send
                    (
                      id,
                      d,
                      o,
                      current,
                      refl,
                      due,
                      unclosed,
                      found,
                      own,
                      sound,
                      there,
                      ground arith,
                      omega (arith, count, fewer),
                    )
                    (e _ (n + 1) (inr there, kept, omega (arith, count), omega (arith, fewer))))
          ])

    read-Goes :
        (h : History) (id : Text) (n : ℕ) (next : ℕ → Proc ℕ) (o : Option Object)
        → ((h' : History) (m : ℕ) → Steady m h' → Goes h' (next m))
        → Steady n h
        → n < max_reconciled_snapshots
        → is_due now id ≡ true
        → Happened (got (snapshot_manifest_key id) none) h
        → Happened (got (pending_descriptor_key id) o) h
        → Goes h (requeue_described now p (etag_of current) id n next (own_descriptor id o))
    unfolding requeue_described
    read-Goes h id n next none e steady fewer due unclosed found = e h n steady
    read-Goes h id n next (some o) e steady fewer due unclosed found =
        elim (Option-cases (own_descriptor id (some o))) [
          | inl foreign ↦ rw (foreign, requeue_described) (e h n steady)
          | inr (d, own) ↦
              rw own (described-Goes h id n next o d e steady fewer due own unclosed found)
        ]

    closed-Goes :
        (h : History) (id : Text) (n : ℕ) (next : ℕ → Proc ℕ) (closed : Option Object)
        → ((h' : History) (m : ℕ) → Steady m h' → Goes h' (next m))
        → Steady n h
        → n < max_reconciled_snapshots
        → is_due now id ≡ true
        → Goes
            (got (snapshot_manifest_key id) closed ∷ h)
            (requeue_unless_closed now p (etag_of current) id n next closed)
    unfolding requeue_unless_closed read_descriptor ◌>>=◌
    closed-Goes h id n next (some o) e (there, kept, count, few) fewer due =
        e _ n (inr there, kept, count, few)
    closed-Goes h id n next none e (there, kept, count, few) fewer due = at_get (λ o.
        read-Goes _ id n next o e (inr (inr there), kept, count, few) fewer due (inr (inl refl))
          (inl refl))

    requeue-Goes :
        (h : History) (ids : List Text) (n : ℕ)
        → All (λ id. is_due now id ≡ true) ids
        → Steady n h
        → Goes h (requeue now p (etag_of current) ids n)
    unfolding requeue
    requeue-Goes h [] n a steady = at_done steady
    requeue-Goes h (id ∷ ids) n (due, a) steady =
        at_if (leb max_reconciled_snapshots n) (λ many. at_done steady)
          (λ few. at_get (λ closed.
            closed-Goes h id n (λ m. requeue now p (etag_of current) ids m) closed
              (λ h' m steady'. requeue-Goes h' ids m a steady') steady (ground arith) due))

    answered :
        (h : History) (examined n : ℕ) (r : RetentionResult)
        → n ≤ max_reconciled_snapshots
        → Reports h (answer_reconcile now p examined n r)
    unfolding answer_reconcile
    answered h examined n (swept k) few = few
    answered h examined n retention_threw few = tt

    weaker : (h : History) (a : Action) → Sweeps p now h a → Repairs h a
    weaker h (putting k b w m) x = x
    weaker h (streaming k w m) x = x
    weaker h (deleting ks) x = x
    weaker h (sending j) x = absurd x

    close-Repairs :
        (c : Option Text) (h : History) (examined n : ℕ)
        → Steady n h
        → Ensures Repairs Reports h (close_reconcile now p c examined n)
    unfolding close_reconcile write_scan_cursor ◌>>=◌
    close-Repairs c h examined n (there, kept, count, few) =
        at_put (codes "reconcile", c, refl, refl)
          (λ o. at_bind _ (
            Ensures-mono weaker (λ h' r x. at_done (answered h' examined n r few))
              (run_retention-Ensures p now _ kept)))

    repair-Repairs :
        (h : History) (scanned : Option (List Text × Option Text))
        → Steady 0 h
        → Ensures Repairs Reports h (repair now p current scanned)
    unfolding repair
    repair-Repairs h none steady = at_done tt
    repair-Repairs h (some (scanned, c)) steady =
        at_bind (close_reconcile now p c (length (candidates now scanned))) (
          Ensures-mono (λ h' a x. x)
            (λ h' n x. close-Repairs c h' (length (candidates now scanned)) n x)
            (requeue-Goes h (candidates now scanned) 0 (candidates-All scanned) steady))

    scan_goes :
        (pages : ℕ) (h : History) (c : Option Text) (found : List Text)
        → Steady 0 h
        → Ensures Repairs (λ h' r. Steady 0 h') h (scan_pending pages c found)
    unfolding scan_pending
    scan_goes zero h c found steady = at_done steady
    scan_goes (suc pages) h c found (there, kept, count, few) = at_list (λ l.
        at_if (is_cursor_lost l) (λ lost. at_done (inr there, kept, count, few))
          (λ found_next.
            at_if l.truncated
              (λ more. scan_goes pages _ l.next (found ++ l.prefixes) (inr there, kept, count, few))
              (λ last. at_done (inr there, kept, count, few))))

  -- Whatever the bucket answers, the repair sends nothing but finalize jobs, at most three of them,
  -- and each only for a snapshot whose age is between five minutes and six hours, which it has
  -- found without a manifest, and whose own descriptor it has read, is sound, and names the etag
  -- that current.json had when the repair began. Its other changes are those of the retention
  -- sweep and its own cursor, and it never reports more than three requeued jobs.
  pub run_reconcile-Ensures : Ensures Repairs Reports [] (run_reconcile now p)
  unfolding run_reconcile read_scan_cursor ◌>>=◌
  run_reconcile-Ensures = at_get (λ current. at_get (λ c. at_bind (repair now p current) (
      Ensures-mono (λ h a x. x) (λ h r x. repair-Repairs current h r x)
        (scan_goes current reconcile_scan_pages _ _ [] (inr (inl refl), refl, refl, omega arith)))))

-- ===== src/Worker/Maintenance/Reconcile.antt =====
-- `runReconcile` of worker/src/publisher.ts: the periodic repair, which asks again for the finalize
-- of publications that were left open.
pub mod Requeuing
use utm_curs_i_orar.Prelude.{
  ℕ, zero, suc, ◌+◌, ◌*◌, Bool, true, false, ◌&&◌, ◌||◌, not, Option, none, some, List, [], ◌∷◌,
  ◌++◌, ltb, leb, ◌==◌, if◌then◌else◌, length, map,
}
use utm_curs_i_orar.Text.{Text, codes, nullable_eq}
use utm_curs_i_orar.Worker.Types.{
  PendingDescriptor, PublicationJob, finalize, ReconcileResult, reconciled, reconcile_failed,
}
use utm_curs_i_orar.Worker.Keys.{current_key, pending_prefix, snapshot_manifest_key}
use utm_curs_i_orar.Worker.Bucket.{Proc, done, get, list, send, read, Object, Listing, ◌>>=◌, ◌>>◌}
use utm_curs_i_orar.Worker.Instants.{snapshot_id_instant, pending_max_age_ms}
use utm_curs_i_orar.Worker.Platform.{Platform}
use utm_curs_i_orar.Worker.Policy.{add_url}
use utm_curs_i_orar.Worker.Descriptors.{read_descriptor, descriptor_file_error}
use utm_curs_i_orar.Worker.Opening.{listed_id}
use utm_curs_i_orar.Worker.Maintenance.{
  etag_of, is_cursor_lost, next_cursor, read_scan_cursor, write_scan_cursor, RetentionResult, swept,
  retention_threw, run_retention,
}

abbrev pub reconcile_scan_pages : ℕ
reconcile_scan_pages = 3

abbrev pub reconcile_page_size : ℕ
reconcile_page_size = 100

abbrev pub max_reconciled_snapshots : ℕ
max_reconciled_snapshots = 3

abbrev pub pending_min_age_ms : ℕ
pending_min_age_ms = 5 * 60 * 1000

-- The pages of the pending prefixes, and the cursor behind them; none is the caught error.
unfoldable pub scan_pending : ℕ → Option Text → List Text → Proc (Option (List Text × Option Text))
scan_pending zero c found = done (some (found, c))
scan_pending (suc pages) c found = list pending_prefix true reconcile_page_size c (λ l.
    if is_cursor_lost l
    then done none
    else if l.truncated
    then scan_pending pages l.next (found ++ l.prefixes)
    else done (some (found ++ l.prefixes, none)))

-- `new Set(scanned)`
unfoldable pub distinct : List Text → List Text → List Text
unfolding add_url
distinct seen [] = seen
distinct seen (t ∷ ts) = distinct (add_url seen t) ts

-- The order of `sort()`, by code units.
unfoldable pub is_before : Text → Text → Bool
is_before [] [] = false
is_before [] (_ ∷ _) = true
is_before (_ ∷ _) [] = false
is_before (x ∷ xs) (y ∷ ys) = ltb x y || (x == y && is_before xs ys)

unfoldable pub insert_latest : Text → List Text → List Text
unfolding is_before
insert_latest t [] = t ∷ []
insert_latest t (u ∷ us) =
    let rest = insert_latest t us in if is_before t u then u ∷ rest else t ∷ u ∷ us

-- `sort().reverse()`
unfoldable pub latest_first : List Text → List Text
unfolding insert_latest
latest_first [] = []
latest_first (t ∷ ts) = insert_latest t (latest_first ts)

module _ (now : ℕ) where
  -- Old enough that its publisher has stopped, and young enough that it may still be published.
  unfoldable pub is_due : Text → Bool
  unfolding snapshot_id_instant
  is_due id = elim (snapshot_id_instant id) [
    | none ↦ false
    | some created ↦
        leb (created + pending_min_age_ms) now && leb now (created + pending_max_age_ms)
  ]

  unfoldable pub due_ids : List Text → List Text
  unfolding is_due
  due_ids [] = []
  due_ids (id ∷ ids) = let rest = due_ids ids in if is_due id then id ∷ rest else rest

  unfoldable pub candidates : List Text → List Text
  unfolding latest_first due_ids listed_id distinct
  candidates scanned = latest_first (due_ids (map listed_id (distinct [] scanned)))

  module _ (p : Platform) where
    -- A descriptor that can still win the swap, and has no error, is asked for.
    unfoldable pub requeue_described :
        Option Text → Text → ℕ → (ℕ → Proc ℕ) → Option PendingDescriptor → Proc ℕ
    unfolding descriptor_file_error
    requeue_described etag id requeued next none = next requeued
    requeue_described etag id requeued next (some d) =
        if not (nullable_eq d.current_etag etag)
        then next requeued
        else elim (descriptor_file_error p d) [
          | some _ ↦ next requeued
          | none ↦ send (finalize id) (next (requeued + 1))
        ]

    unfoldable pub requeue_unless_closed :
        Option Text → Text → ℕ → (ℕ → Proc ℕ) → Option Object → Proc ℕ
    unfolding ◌>>=◌ requeue_described read_descriptor
    requeue_unless_closed etag id requeued next (some _) = next requeued
    requeue_unless_closed etag id requeued next none = do
      d ← read_descriptor id
      requeue_described etag id requeued next d

    unfoldable pub requeue : Option Text → List Text → ℕ → Proc ℕ
    unfolding requeue_unless_closed
    requeue etag [] requeued = done requeued
    requeue etag (id ∷ ids) requeued =
        if leb max_reconciled_snapshots requeued
        then done requeued
        else get (snapshot_manifest_key id)
            (requeue_unless_closed etag id requeued (λ n. requeue etag ids n))

    -- none is an exception of the sweep, which is not caught.
    unfoldable pub answer_reconcile : ℕ → ℕ → RetentionResult → Option ReconcileResult
    answer_reconcile examined requeued (swept deleted) = some (reconciled examined requeued)
    answer_reconcile examined requeued retention_threw = none

    unfoldable pub close_reconcile : Option Text → ℕ → ℕ → Proc (Option ReconcileResult)
    unfolding ◌>>=◌ write_scan_cursor run_retention answer_reconcile
    close_reconcile c examined requeued = do
      write_scan_cursor (codes "reconcile") c
      r ← run_retention now p
      done (answer_reconcile examined requeued r)

    unfoldable pub repair :
        Option Object → Option (List Text × Option Text) → Proc (Option ReconcileResult)
    unfolding ◌>>=◌ requeue candidates close_reconcile
    repair current none = done (some reconcile_failed)
    repair current (some (scanned, c)) = do
      requeued ← requeue (etag_of current) (candidates scanned) 0
      close_reconcile c (length (candidates scanned)) requeued

    unfoldable pub run_reconcile : Proc (Option ReconcileResult)
    unfolding ◌>>=◌ read_scan_cursor scan_pending repair
    run_reconcile = do
      current ← read current_key
      c ← read_scan_cursor (codes "reconcile")
      scanned ← scan_pending reconcile_scan_pages c []
      repair current scanned

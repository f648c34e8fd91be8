-- ===== src/Worker/Maintenance/Retention.antt =====
-- What the retention sweep deletes.
use utm_curs_i_orar.Prelude.{
  ℕ, ◌+◌, ◌<◌, ◌≡◌, refl, Option, none, some, List, [], ◌∷◌, inl, inr, All, Any, Bool-cases, ltb,
  arith,
}
use utm_curs_i_orar.Text.{Text, codes}
use utm_curs_i_orar.Worker.Types.{ParsedCurrentPointer}
use utm_curs_i_orar.Worker.Keys.{current_key}
use utm_curs_i_orar.Worker.Bucket.{Object, ◌>>=◌}
use utm_curs_i_orar.Worker.Bucket.Rules.{
  got, History, Ensures, at_done, at_get, at_put, at_delete, at_list, at_if, at_bind, Ensures-mono,
}
use utm_curs_i_orar.Worker.Checked.{Checked, fine, fault}
use utm_curs_i_orar.Worker.Platform.{Platform}
use utm_curs_i_orar.Worker.Pointer.{PointerError, parse_current_pointer, pointer_id}
use utm_curs_i_orar.Worker.Maintenance.{
  retention_age_ms, snapshot_keep_predecessors, cursor_of, read_scan_cursor, write_scan_cursor,
  is_cursor_lost, pending_namespace, snapshot_namespace, Guard, Progress, going, deferred, threw,
  expired_keys, delete_operations, sweep_operations, after_snapshots, after_pending, sweep,
  sweep_protecting, sweep_from, run_retention, next_cursor,
}
use utm_curs_i_orar.Worker.Maintenance.Sweeping.{
  deletions, IsGuard, ExpiresOperations, Sweeps, AnyResult,
}
use utm_curs_i_orar.Worker.Maintenance.Sweeping.Prefixes.{Stopped, namespace_sweeps}
use utm_curs_i_orar.Worker.Maintenance.Sweeping.Live.{Guards, protect-Guards}

module _ (p : Platform) (now : ℕ) where
  expired-All :
      (objects : List (Text × ℕ))
      → All
          (λ k.
            (uploaded : ℕ) × Any (λ x. x ≡ (k, uploaded)) objects
            × (uploaded + retention_age_ms < now))
          (expired_keys now objects)
  unfolding expired_keys
  expired-All [] = tt
  expired-All ((k, uploaded) ∷ objects) =
      elim (Bool-cases (ltb (uploaded + retention_age_ms) now)) [
        | inl old ↦ rw old (
          (uploaded, inl refl, ground arith),
          widened (expired_keys now objects) (expired-All objects),
        )
        | inr young ↦ rw young (widened (expired_keys now objects) (expired-All objects))
      ]
    where
      widened :
          (ks : List Text)
          → All (λ j. (u : ℕ) × Any (λ x. x ≡ (j, u)) objects × (u + retention_age_ms < now)) ks
          → All
              (λ j.
                (u : ℕ) × Any (λ x. x ≡ (j, u)) ((k, uploaded) ∷ objects)
                × (u + retention_age_ms < now))
              ks
      widened [] a = tt
      widened (j ∷ ks) ((u, there, old), a) = ((u, inr there, old), widened ks a)

  delete-Sweeps :
      (h : History) (ks : List Text)
      → ExpiresOperations p now h ks
      → Ensures (Sweeps p now) (λ h' r. Unit) h (delete_operations now ks)
  unfolding delete_operations
  delete-Sweeps h [] x = at_done tt
  delete-Sweeps h (k ∷ ks) x = at_delete (inr x) (at_done tt)

  operations-Sweeps :
      (h : History) (objects : ℕ)
      → Ensures (Sweeps p now) (AnyResult p now) h (sweep_operations now objects)
  unfolding sweep_operations read_scan_cursor write_scan_cursor ◌>>=◌
  operations-Sweeps h objects = at_get (λ o. at_list (λ l.
      at_if (is_cursor_lost l) (λ lost. at_done tt)
        (λ kept. at_bind _ (
          Ensures-mono (λ h' a x. x)
            (λ h' r x.
              at_put (codes "gc-operations", next_cursor l, refl, refl) (λ made. at_done tt))
            (delete-Sweeps _ (expired_keys now l.objects)
              (cursor_of o, l, inl refl, expired-All l.objects))))))

  snapshots-Sweeps :
      (g : Guard) (h : History) (r : Progress)
      → Ensures (Sweeps p now) (AnyResult p now) h (after_snapshots now r)
  unfolding after_snapshots
  snapshots-Sweeps g h (going objects prefixes) = operations-Sweeps h objects
  snapshots-Sweeps g h (deferred objects) = at_done tt
  snapshots-Sweeps g h threw = at_done tt

  pending-Sweeps :
      (g : Guard) (h : History) (r : Progress)
      → Stopped p now g h r
      → Ensures (Sweeps p now) (AnyResult p now) h (after_pending now g r)
  unfolding after_pending
  pending-Sweeps g h (going objects prefixes) steady = at_bind (after_snapshots now) (
      Ensures-mono (λ h' a x. x) (λ h' r x. snapshots-Sweeps g h' r)
        (namespace_sweeps p now g snapshot_namespace h objects prefixes steady))
  pending-Sweeps g h (deferred objects) s = at_done tt
  pending-Sweeps g h threw s = at_done tt

  sweep-Sweeps :
      (g : Guard) (h : History)
      → IsGuard p now h g
      → deletions h ≡ 0
      → Ensures (Sweeps p now) (AnyResult p now) h (sweep now g)
  unfolding sweep
  sweep-Sweeps g h v c = at_bind (after_pending now g) (
      Ensures-mono (λ h' a x. x) (λ h' r x. pending-Sweeps g h' r x)
        (namespace_sweeps p now g pending_namespace h 0 0 (v, c)))

  protecting-Sweeps :
      (o : Object) (pointer : ParsedCurrentPointer) (h : History) (ids : Option (List Text))
      → parse_current_pointer p.json_parse (p.text_of o.body) ≡ fine pointer
      → Guards p now
          (some o)
          snapshot_keep_predecessors
          (pointer_id pointer)
          (pointer_id pointer ∷ [])
          h
          ids
      → Ensures
          (Sweeps p now)
          (AnyResult p now)
          h
          (sweep_protecting now (pointer_id pointer) o.etag ids)
  unfolding sweep_protecting
  protecting-Sweeps o pointer h none parsed x = at_done tt
  protecting-Sweeps o pointer h (some ids) parsed ((there, none_deleted), rest, e, chain) =
      sweep-Sweeps _ h
        (record {
          first = some o;
          was_read = there;
          etag_eq = refl;
          live = inr (o, pointer, rest, refl, parsed, refl, e, chain);
        })
        none_deleted

  from_Sweeps :
      (h : History) (o : Option Object)
      → deletions h ≡ 0
      → Ensures (Sweeps p now) (AnyResult p now) (got current_key o ∷ h) (sweep_from now p o)
  unfolding sweep_from
  from_Sweeps h none c =
      sweep-Sweeps (record { current_id = none; protected_ids = []; etag = none }) _
        (record { first = none; was_read = inl refl; etag_eq = refl; live = inl (refl, refl) }) c
  from_Sweeps h (some o) c = by_parse (parse_current_pointer p.json_parse (p.text_of o.body)) refl
    where
      by_parse :
          (parsed : Checked PointerError ParsedCurrentPointer)
          → parse_current_pointer p.json_parse (p.text_of o.body) ≡ parsed
          → Ensures
              (Sweeps p now)
              (AnyResult p now)
              (got current_key (some o) ∷ h)
              (sweep_from now p (some o))
      by_parse (fault e) eq = rw (eq, sweep_from) (at_done tt)
      by_parse (fine pointer) eq =
          rw (eq, sweep_from)
            (at_bind (sweep_protecting now (pointer_id pointer) o.etag) (
              Ensures-mono (λ h' a x. x) (λ h' ids x. protecting-Sweeps o pointer h' ids eq x)
                (protect-Guards p now (some o) snapshot_keep_predecessors _ (pointer_id pointer)
                  (pointer_id pointer ∷ []) (inl refl, c))))

  -- Where the calls before it deleted nothing, and whatever the bucket answers, the retention sweep writes nothing but its scan cursors, and every
  -- bulk deletion is of one of two kinds. Of a prefix: then current.json was read first and, where
  -- there is one, could be parsed and names a snapshot whose manifests up to its second predecessor
  -- were read without a gap; the prefix's id is a well-formed snapshot id more than 24 hours old,
  -- is not the current id and, among the snapshots, not a predecessor's; current.json was found
  -- unchanged just before; exactly the keys that were then listed are deleted; and fewer than four
  -- such deletions came before. Or of operation records: each was listed as uploaded more than 24
  -- hours ago.
  pub run_retention-Ensures :
      (h : History)
      → deletions h ≡ 0
      → Ensures (Sweeps p now) (AnyResult p now) h (run_retention now p)
  unfolding run_retention ◌>>=◌
  run_retention-Ensures h c = at_get (λ o. from_Sweeps h o c)

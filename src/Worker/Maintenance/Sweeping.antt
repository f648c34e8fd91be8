-- ===== src/Worker/Maintenance/Sweeping.antt =====
-- What the retention sweep may delete: the conditions on its calls.
pub mod Prefixes
pub mod Live
use utm_curs_i_orar.Prelude.{
  ℕ, zero, suc, ◌+◌, ◌<◌, ◌≡◌, refl, sym, ap, true, false, ◌&&◌, Option, none, some, List, [], ◌∷◌,
  ◌++◌, ◌⊎◌, inl, inr, All, Any, Bool-cases, Option-cases, leb, ltb, if◌then◌else◌, arith,
  append_assoc, append-nil, ◌∙◌,
}
use utm_curs_i_orar.Text.{Text, codes, text_eq, nullable_eq}
use utm_curs_i_orar.Worker.Types.{SnapshotManifest, ParsedCurrentPointer, cursor}
use utm_curs_i_orar.Worker.Keys.{current_key, operation_prefix, snapshot_manifest_key}
use utm_curs_i_orar.Worker.Bucket.{Proc, done, Object, Listing, ◌>>=◌}
use utm_curs_i_orar.Worker.Bucket.Rules.{
  Action, putting, streaming, deleting, sending, Event, got, wrote, streamed, deleted, listed, sent,
  History, Ensures, at_done, at_get, at_put, at_delete, at_list, at_if, at_bind, Ensures-mono,
  Ensures-since, Happened,
}
use utm_curs_i_orar.Worker.Checked.{Checked, fine, fault}
use utm_curs_i_orar.Worker.Documents.{as_manifest}
use utm_curs_i_orar.Worker.Instants.{snapshot_id_instant}
use utm_curs_i_orar.Worker.Platform.{Platform}
use utm_curs_i_orar.Worker.Policy.{contains}
use utm_curs_i_orar.Worker.Pointer.{PointerError, parse_current_pointer, pointer_id}
use utm_curs_i_orar.Worker.Maintenance.{
  retention_age_ms, snapshot_keep_predecessors, gc_max_prefix_deletions, gc_max_objects_per_prefix,
  gc_max_operation_deletions, cursor_key, cursor_of, read_scan_cursor, write_scan_cursor,
  is_cursor_lost, Namespace, pending_namespace, snapshot_namespace, prefix_of, is_snapshots, Guard,
  etag_of, Link, broken_link, root, behind, behind_of, link_of, protect, child_id, Progress, going,
  deferred, threw, RetentionResult, is_young, is_kept, remove_listed, keys_of, remove_unless_moved,
  sweep_prefix, sweep_prefixes, close_namespace, sweep_namespace, expired_keys, delete_operations,
  sweep_operations, after_snapshots, after_pending, sweep, sweep_protecting, sweep_from,
  run_retention, next_cursor, cursor_name,
}

-- The bulk deletions so far.
abbrev pub deletions : History → ℕ
deletions [] = 0
deletions (got k o ∷ h) = deletions h
deletions (wrote k b w m o ∷ h) = deletions h
deletions (streamed k w m u ∷ h) = deletions h
deletions (deleted ks ∷ h) = suc (deletions h)
deletions (listed p d n t l ∷ h) = deletions h
deletions (sent j ∷ h) = deletions h

-- `rest` are the predecessors of a snapshot, at most `n` of them, by the manifests that were read;
-- a shorter list ends at a manifest without a predecessor.
abbrev pub IsChain : History → ℕ → Text → List Text → Type 0
IsChain h zero id [] = Unit
IsChain h zero id (previous ∷ rest) = ⊥
IsChain h (suc n) id [] =
    (o : Object) × (m : SnapshotManifest) × Happened (got (snapshot_manifest_key id) (some o)) h
    × (as_manifest o.body ≡ some m)
    × (m.previous_snapshot_id ≡ none)
IsChain h (suc n) id (previous ∷ rest) =
    (o : Object) × (m : SnapshotManifest) × Happened (got (snapshot_manifest_key id) (some o)) h
    × (as_manifest o.body ≡ some m)
    × (m.previous_snapshot_id ≡ some previous)
    × IsChain h n previous rest

pub IsChain-grows :
    (e : Event) (h : History) (n : ℕ) (id : Text) (rest : List Text)
    → IsChain h n id rest
    → IsChain (e ∷ h) n id rest
IsChain-grows e h zero id [] c = tt
IsChain-grows e h zero id (previous ∷ rest) c = c
IsChain-grows e h (suc n) id [] (o, m, there, is, at) = (o, m, inr there, is, at)
IsChain-grows e h (suc n) id (previous ∷ rest) (o, m, there, is, at, c) =
    (o, m, inr there, is, at, IsChain-grows e h n previous rest c)

module _ (p : Platform) (now : ℕ) where
  -- The guard is what current.json and the manifests said: the current snapshot and its two
  -- predecessors, or nothing where there is no current.json.
  pub record IsGuard (h : History) (g : Guard) : Type 0 where
    pub first : Option Object
    pub was_read : Happened (got current_key first) h
    pub etag_eq : g.etag ≡ etag_of first
    pub live :
        ((first ≡ none) × (g.current_id ≡ none))
        ⊎ ((o : Object) × (pointer : ParsedCurrentPointer) × (rest : List Text) × (first ≡ some o)
            × (parse_current_pointer p.json_parse (p.text_of o.body) ≡ fine pointer)
            × (g.current_id ≡ some (pointer_id pointer))
            × (g.protected_ids ≡ pointer_id pointer ∷ rest)
            × IsChain h snapshot_keep_predecessors (pointer_id pointer) rest)

  abbrev pub IsExpired : Text → Type 0
  IsExpired id =
      (created : ℕ) × (snapshot_id_instant id ≡ some created) × (created + retention_age_ms < now)

  -- One bulk deletion of a prefix: of an expired snapshot that is not live, everything that the
  -- listing just before gave, after current.json was found as it was at the start.
  abbrev pub SweepsPrefix : History → List Text → Type 0
  SweepsPrefix h ks =
      (g : Guard) × (namespace : Namespace) × (child : Text) × (latest : Option Object)
      × (l : Listing) × (before : History) × IsGuard before g
      × IsExpired (child_id (prefix_of namespace) child)
      × (nullable_eq g.current_id (some (child_id (prefix_of namespace) child)) ≡ false)
      × ((namespace ≡ snapshot_namespace)
          → contains (child_id (prefix_of namespace) child) g.protected_ids ≡ false)
      × (nullable_eq (etag_of latest) g.etag ≡ true)
      × (h ≡ listed child false gc_max_objects_per_prefix none l ∷ got current_key latest ∷ before)
      × (ks ≡ keys_of l)
      × (deletions h < gc_max_prefix_deletions)

  -- The operation records that a listing gave as older than the retention age.
  abbrev pub ExpiresOperations : History → List Text → Type 0
  ExpiresOperations h ks =
      (c : Option Text) × (l : Listing) × Happened
        (listed operation_prefix false gc_max_operation_deletions c l) h
      × All
          (λ k.
            (uploaded : ℕ) × Any (λ x. x ≡ (k, uploaded)) l.objects
            × (uploaded + retention_age_ms < now))
          ks

  abbrev pub Sweeps : History → Action → Type 0
  Sweeps h (putting k b w m) =
      (name : Text) × (c : Option Text) × (k ≡ cursor_key name) × (b ≡ cursor c)
  Sweeps h (streaming k w m) = ⊥
  Sweeps h (deleting ks) = SweepsPrefix h ks ⊎ ExpiresOperations h ks
  Sweeps h (sending j) = ⊥

  abbrev pub AnyResult : History → RetentionResult → Type 0
  AnyResult h r = Unit

  pub IsGuard-grows : (g : Guard) (e : Event) (h : History) → IsGuard h g → IsGuard (e ∷ h) g
  IsGuard-grows g e h v = record {
    first = v.first;
    was_read = inr v.was_read;
    etag_eq = v.etag_eq;
    live = elim v.live [
      | inl x ↦ inl x
      | inr (o, pointer, rest, x, y, z, w, c) ↦ inr (
        o,
        pointer,
        rest,
        x,
        y,
        z,
        w,
        IsChain-grows e h snapshot_keep_predecessors (pointer_id pointer) rest c,
      )
    ];
  }

-- ===== src/Worker/Maintenance.antt =====
-- worker/src/maintenance.ts: the scan cursors, and the sweeps that delete what has expired.
pub mod Sweeping
pub mod Retention
pub mod Reconcile
use utm_curs_i_orar.Prelude.{
  ℕ, zero, suc, ◌+◌, ◌-◌, ◌*◌, Bool, true, false, ◌&&◌, ◌||◌, not, Option, none, some, List, [],
  ◌∷◌, ◌++◌, map, ltb, leb, ◌==◌, if◌then◌else◌, length,
}
use utm_curs_i_orar.Text.{Text, codes, text_eq, nullable_eq, slice}
use utm_curs_i_orar.Worker.Types.{cursor}
use utm_curs_i_orar.Worker.Keys.{
  current_key, pending_prefix, snapshot_prefix, operation_prefix, snapshot_manifest_key,
}
use utm_curs_i_orar.Worker.Bucket.{
  Proc, done, get, list, delete, read, write, Object, Listing, always, ◌>>=◌, ◌>>◌,
}
use utm_curs_i_orar.Worker.Checked.{fine, fault}
use utm_curs_i_orar.Worker.Documents.{as_manifest, as_cursor}
use utm_curs_i_orar.Worker.Instants.{snapshot_id_instant}
use utm_curs_i_orar.Worker.Platform.{Platform}
use utm_curs_i_orar.Worker.Policy.{contains}
use utm_curs_i_orar.Worker.Pointer.{parse_current_pointer, pointer_id}

abbrev pub retention_age_ms : ℕ
retention_age_ms = 24 * 60 * 60 * 1000

abbrev pub snapshot_keep_predecessors : ℕ
snapshot_keep_predecessors = 2

abbrev pub gc_prefixes_per_namespace : ℕ
gc_prefixes_per_namespace = 8

abbrev pub gc_max_prefix_deletions : ℕ
gc_max_prefix_deletions = 4

abbrev pub gc_max_objects_per_prefix : ℕ
gc_max_objects_per_prefix = 64

abbrev pub gc_max_operation_deletions : ℕ
gc_max_operation_deletions = 64

unfoldable pub cursor_key : Text → Text
cursor_key name = codes "maintenance/" ++ (name ++ codes ".json")

abbrev pub cursor_of : Option Object → Option Text
cursor_of none = none
cursor_of (some o) = as_cursor o.body

unfoldable pub read_scan_cursor : Text → Proc (Option Text)
unfolding ◌>>=◌
read_scan_cursor name = do o ← read (cursor_key name); done (cursor_of o)

unfoldable pub write_scan_cursor : Text → Option Text → Proc (Unit {0})
unfolding ◌>>=◌
write_scan_cursor name c = do write (cursor_key name) (cursor c) always []; done tt

-- `listing.truncated && !listing.cursor`
abbrev pub is_cursor_lost : Listing → Bool
is_cursor_lost l = l.truncated && (elim l.next [ none ↦ true | some t ↦ length t == 0 ])

abbrev pub next_cursor : Listing → Option Text
next_cursor l = if l.truncated then l.next else none

pub data Namespace : Type 0 where
  pending_namespace snapshot_namespace : Namespace

abbrev pub prefix_of : Namespace → Text
prefix_of pending_namespace = pending_prefix
prefix_of snapshot_namespace = snapshot_prefix

abbrev pub cursor_name : Namespace → Text
cursor_name pending_namespace = codes "gc-pending"
cursor_name snapshot_namespace = codes "gc-snapshots"

abbrev pub is_snapshots : Namespace → Bool
is_snapshots pending_namespace = false
is_snapshots snapshot_namespace = true

-- What the sweep must keep: the current snapshot and its predecessors, at this etag of current.json.
pub record Guard : Type 0 where
  pub current_id : Option Text
  pub protected_ids : List Text
  pub etag : Option Text

abbrev pub etag_of : Option Object → Option Text
etag_of none = none
etag_of (some o) = some o.etag

-- What a manifest says of the snapshot before it.
pub data Link : Type 0 where
  broken_link root : Link
  behind : Text → Link

behind_of : List Text → Option Text → Link
unfolding snapshot_id_instant contains
behind_of ids none = root
behind_of ids (some previous) = elim (snapshot_id_instant previous) [
  | none ↦ broken_link
  | some _ ↦ if contains previous ids then broken_link else behind previous
]

unfoldable pub link_of : Text → List Text → Option Object → Link
unfolding behind_of text_eq
link_of id ids none = broken_link
link_of id ids (some o) = elim (as_manifest o.body) [
  | none ↦ broken_link
  | some m ↦ if text_eq m.snapshot_id id then behind_of ids m.previous_snapshot_id else broken_link
]

-- The loop over the predecessors; none when the live data cannot be told.
unfoldable pub protect : ℕ → Text → List Text → Proc (Option (List Text))
unfolding link_of
protect zero id ids = done (some ids)
protect (suc n) id ids = get (snapshot_manifest_key id) (λ o. elim (link_of id ids o) [
  | broken_link ↦ done none
  | root ↦ done (some ids)
  | behind previous ↦ protect n previous (ids ++ previous ∷ [])
])

unfoldable pub child_id : Text → Text → Text
child_id prefix child = slice (length prefix) (length child - 1) child

-- The sweep so far: the objects and the prefixes deleted, or that it stopped.
pub data Progress : Type 0 where
  going : ℕ → ℕ → Progress
  deferred : ℕ → Progress
  threw : Progress

pub data RetentionResult : Type 0 where
  swept : ℕ → RetentionResult
  retention_threw : RetentionResult

abbrev pub keys_of : Listing → List Text
keys_of l = map (λ (o : Text × ℕ). o.0) l.objects

module _ (now : ℕ) where
  abbrev pub is_young : Option ℕ → Bool
  is_young none = true
  is_young (some created) = leb now (created + retention_age_ms)

  unfoldable pub is_kept : Guard → Namespace → Text → Bool
  unfolding snapshot_id_instant contains text_eq
  is_kept g namespace id =
      is_young (snapshot_id_instant id)
      || nullable_eq g.current_id (some id)
      || (is_snapshots namespace && contains id g.protected_ids)

  unfoldable pub remove_listed : List Text → ℕ → ℕ → (ℕ → ℕ → Proc Progress) → Proc Progress
  remove_listed [] objects prefixes next = next objects prefixes
  remove_listed (k ∷ ks) objects prefixes next =
      delete (k ∷ ks) (next (objects + length (k ∷ ks)) (prefixes + 1))

  unfoldable pub remove_unless_moved :
      Guard → Text → ℕ → ℕ → (ℕ → ℕ → Proc Progress) → Option Object → Proc Progress
  unfolding remove_listed text_eq
  remove_unless_moved g child objects prefixes next latest =
      if nullable_eq (etag_of latest) g.etag
      then list child false gc_max_objects_per_prefix none
          (λ l. remove_listed (keys_of l) objects prefixes next)
      else done (deferred objects)

  unfoldable pub sweep_prefix :
      Guard → Namespace → Text → ℕ → ℕ → (ℕ → ℕ → Proc Progress) → Proc Progress
  unfolding is_kept child_id remove_unless_moved
  sweep_prefix g namespace child objects prefixes next =
      if leb gc_max_prefix_deletions prefixes
      then done (going objects prefixes)
      else if is_kept g namespace (child_id (prefix_of namespace) child)
      then next objects prefixes
      else get current_key (remove_unless_moved g child objects prefixes next)

  unfoldable pub sweep_prefixes : Guard → Namespace → List Text → ℕ → ℕ → Proc Progress
  unfolding sweep_prefix
  sweep_prefixes g namespace [] objects prefixes = done (going objects prefixes)
  sweep_prefixes g namespace (child ∷ children) objects prefixes =
      sweep_prefix g namespace child objects prefixes
        (λ n m. sweep_prefixes g namespace children n m)

  unfoldable pub close_namespace : Namespace → Listing → Progress → Proc Progress
  unfolding ◌>>=◌ write_scan_cursor
  close_namespace namespace l (going objects prefixes) = do
    write_scan_cursor (cursor_name namespace) (next_cursor l)
    done (going objects prefixes)
  close_namespace namespace l (deferred objects) = done (deferred objects)
  close_namespace namespace l threw = done threw

  unfoldable pub sweep_namespace : Guard → Namespace → ℕ → ℕ → Proc Progress
  unfolding ◌>>=◌ read_scan_cursor sweep_prefixes close_namespace
  sweep_namespace g namespace objects prefixes = do
    c ← read_scan_cursor (cursor_name namespace)
    l ← list (prefix_of namespace) true gc_prefixes_per_namespace c (λ l. done l)
    if is_cursor_lost l then done threw else do
      r ← sweep_prefixes g namespace l.prefixes objects prefixes
      close_namespace namespace l r

  unfoldable pub expired_keys : List (Text × ℕ) → List Text
  expired_keys [] = []
  expired_keys ((k, uploaded) ∷ objects) =
      let rest = expired_keys objects in
      if ltb (uploaded + retention_age_ms) now then k ∷ rest else rest

  unfoldable pub delete_operations : List Text → Proc (Unit {0})
  delete_operations [] = done tt
  delete_operations (k ∷ ks) = delete (k ∷ ks) (done tt)

  unfoldable pub sweep_operations : ℕ → Proc RetentionResult
  unfolding ◌>>=◌ read_scan_cursor write_scan_cursor expired_keys delete_operations
  sweep_operations objects = do
    c ← read_scan_cursor (codes "gc-operations")
    l ← list operation_prefix false gc_max_operation_deletions c (λ l. done l)
    if is_cursor_lost l then done retention_threw else do
      delete_operations (expired_keys l.objects)
      write_scan_cursor (codes "gc-operations") (next_cursor l)
      done (swept (objects + length (expired_keys l.objects)))

  unfoldable pub after_snapshots : Progress → Proc RetentionResult
  unfolding sweep_operations
  after_snapshots (going objects prefixes) = sweep_operations objects
  after_snapshots (deferred objects) = done (swept objects)
  after_snapshots threw = done retention_threw

  unfoldable pub after_pending : Guard → Progress → Proc RetentionResult
  unfolding ◌>>=◌ sweep_namespace after_snapshots
  after_pending g (going objects prefixes) = do
    r ← sweep_namespace g snapshot_namespace objects prefixes
    after_snapshots r
  after_pending g (deferred objects) = done (swept objects)
  after_pending g threw = done retention_threw

  unfoldable pub sweep : Guard → Proc RetentionResult
  unfolding ◌>>=◌ sweep_namespace after_pending
  sweep g = do r ← sweep_namespace g pending_namespace 0 0; after_pending g r

  unfoldable pub sweep_protecting : Text → Text → Option (List Text) → Proc RetentionResult
  unfolding sweep
  sweep_protecting id etag none = done (swept 0)
  sweep_protecting id etag (some ids) =
      sweep (record { current_id = some id; protected_ids = ids; etag = some etag })

  module _ (p : Platform) where
    unfoldable pub sweep_from : Option Object → Proc RetentionResult
    unfolding ◌>>=◌ sweep protect sweep_protecting parse_current_pointer
    sweep_from none = sweep (record { current_id = none; protected_ids = []; etag = none })
    sweep_from (some o) = elim (parse_current_pointer p.json_parse (p.text_of o.body)) [
      | fault _ ↦ done (swept 0)
      | fine pointer ↦ do
        ids ← protect snapshot_keep_predecessors (pointer_id pointer) (pointer_id pointer ∷ [])
        sweep_protecting (pointer_id pointer) o.etag ids
    ]

    unfoldable pub run_retention : Proc RetentionResult
    unfolding ◌>>=◌ sweep_from
    run_retention = do o ← read current_key; sweep_from o

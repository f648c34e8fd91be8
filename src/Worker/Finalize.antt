-- ===== src/Worker/Finalize.antt =====
-- `runFinalize` of worker/src/publisher.ts: prove the snapshot complete, then publish it.
pub mod Complete
pub mod Publishing
pub mod Succeeding
use utm_curs_i_orar.Prelude.{
  ℕ, Bool, true, false, ◌&&◌, Option, none, some, List, [], ◌∷◌, if◌then◌else◌, length,
}
use utm_curs_i_orar.Text.{Text, text_eq}
use utm_curs_i_orar.Worker.Types.{
  PendingFile, PendingDescriptor, Origin, md_publisher, other_origin, CompletionMarker,
  SnapshotFile, SnapshotManifest, FinalizeResult, published, already_current, superseded,
  incomplete, failed, Body, manifest, current,
}
use utm_curs_i_orar.Worker.Keys.{
  current_key, snapshot_page_api_key, snapshot_manifest_key, pending_completion_key,
}
use utm_curs_i_orar.Worker.Bucket.{Proc, done, read, write, Object, Cond, if_absent, if_etag, ◌>>=◌}
use utm_curs_i_orar.Worker.Checked.{fine, fault}
use utm_curs_i_orar.Worker.Documents.{as_marker, as_manifest}
use utm_curs_i_orar.Worker.Instants.{snapshot_work_expired}
use utm_curs_i_orar.Worker.Platform.{Platform}
use utm_curs_i_orar.Worker.Pointer.{parse_current_pointer, pointer_id, build_current_pointer}
use utm_curs_i_orar.Worker.Descriptors.{read_descriptor, descriptor_file_error}

-- The clock at each place where the code reads it.
pub record Clock : Type 0 where
  pub at_start : ℕ
  pub published_at : Text
  pub at_swap : ℕ

pub record Inspected : Type 0 where
  pub file : PendingFile
  pub object : Option Object
  pub marker : Option Object

unfoldable pub inspect : Text → List PendingFile → Proc (List Inspected)
unfolding ◌>>=◌
inspect snapshot_id [] = done []
inspect snapshot_id (file ∷ files) = do
  object ← read file.r2_key
  found ← read (pending_completion_key snapshot_id file.file_id)
  rest ← inspect snapshot_id files
  done (record { file = file; object = object; marker = found } ∷ rest)

-- What the loop over the inspected files has found: the missing keys and the manifest's files, or
-- a marker that stops it.
pub data Collected : Type 0 where
  gathered : List Text → List SnapshotFile → Collected
  bad_marker : Collected

abbrev add_missing : Text → Collected → Collected
add_missing key (gathered missing files) = gathered (key ∷ missing) files
add_missing key bad_marker = bad_marker

abbrev add_file : SnapshotFile → Collected → Collected
add_file file (gathered missing files) = gathered missing (file ∷ files)
add_file file bad_marker = bad_marker

unfoldable pub marker_agrees : Text → PendingFile → CompletionMarker → Bool
marker_agrees snapshot_id file m =
    text_eq m.snapshot_id snapshot_id
    && text_eq m.file_id file.file_id
    && text_eq m.filename file.filename
    && text_eq m.source_url file.source_url
    && text_eq m.r2_key file.r2_key

-- The trusted validators of a file that the publisher authored are null, whatever a marker claims.
abbrev trusted : Origin → Option Text → Option Text
trusted md_publisher v = none
trusted other_origin v = v

unfoldable pub manifest_file : Origin → PendingFile → Object → CompletionMarker → SnapshotFile
manifest_file origin file object m = record {
  filename = file.filename;
  source_url = file.source_url;
  r2_key = file.r2_key;
  content_type = m.content_type;
  size = object.size;
  upstream_etag = trusted origin m.upstream_etag;
  upstream_last_modified = trusted origin m.upstream_last_modified;
  publisher_observed_etag = m.publisher_observed_etag;
  publisher_observed_last_modified = m.publisher_observed_last_modified;
  content_sha256 = m.content_sha256;
}

collect_one : Origin → Text → PendingFile → Option Object → Option Object → Collected → Collected
unfolding marker_agrees manifest_file
collect_one origin snapshot_id file none found rest = add_missing file.r2_key rest
collect_one origin snapshot_id file (some object) none rest =
    add_missing (pending_completion_key snapshot_id file.file_id) rest
collect_one origin snapshot_id file (some object) (some found) rest = elim (as_marker found.body) [
  | none ↦ bad_marker
  | some m ↦
      if marker_agrees snapshot_id file m
      then add_file (manifest_file origin file object m) rest
      else bad_marker
]

unfoldable pub collect : Origin → Text → List Inspected → Collected
unfolding collect_one
collect origin snapshot_id [] = gathered [] []
collect origin snapshot_id (i ∷ is) =
    collect_one origin snapshot_id i.file i.object i.marker (collect origin snapshot_id is)

abbrev describes : Text → Option Object → Bool
describes snapshot_id none = false
describes snapshot_id (some o) = elim (as_manifest o.body) [
  | none ↦ false
  | some m ↦ text_eq m.snapshot_id snapshot_id
]

abbrev swap_condition : Option Text → Cond
swap_condition none = if_absent
swap_condition (some etag) = elim etag [ [] ↦ if_absent | c ∷ cs ↦ if_etag (c ∷ cs) ]

abbrev not_retryable : FinalizeResult
not_retryable = failed (some false)

module _ (p : Platform) where
  unfoldable pub points_at : Text → Option Object → Bool
  unfolding parse_current_pointer
  points_at snapshot_id none = false
  points_at snapshot_id (some o) = elim (parse_current_pointer p.json_parse (p.text_of o.body)) [
    | fault e ↦ false
    | fine pointer ↦ text_eq (pointer_id pointer) snapshot_id
  ]

  unfoldable pub current_points_at : Text → Proc Bool
  unfolding ◌>>=◌ points_at
  current_points_at snapshot_id = do o ← read current_key; done (points_at snapshot_id o)

  abbrev manifest_of : PendingDescriptor → Text → List SnapshotFile → SnapshotManifest
  manifest_of d snapshot_id files = record {
    snapshot_id = snapshot_id;
    previous_snapshot_id = d.previous_snapshot_id;
    created_at = d.created_at;
    source = d.source;
    files = files;
  }

  -- From the built pointer on: the last test of the window, and the swap.
  swap : Clock → Text → PendingDescriptor → List SnapshotFile → Proc FinalizeResult
  unfolding ◌>>=◌ snapshot_work_expired current_points_at build_current_pointer
  swap clock snapshot_id d files =
      let pointer =
        build_current_pointer snapshot_id clock.published_at d.source.page_modified_gmt
          d.source.page_id (length files) in
      if snapshot_work_expired snapshot_id clock.at_swap then done not_retryable else do
        won ← write current_key (current pointer) (swap_condition d.current_etag) []
        elim won [
          | some _ ↦ done published
          | none ↦ do
            mine ← current_points_at snapshot_id
            done (if mine then already_current else superseded)
        ]

  close : Clock → Text → PendingDescriptor → List SnapshotFile → Proc FinalizeResult
  unfolding ◌>>=◌ swap
  close clock snapshot_id d files = do
    made ←
        write (snapshot_manifest_key snapshot_id) (manifest (manifest_of d snapshot_id files))
          if_absent []
    elim made [
      | some _ ↦ swap clock snapshot_id d files
      | none ↦ do
        existing ← read (snapshot_manifest_key snapshot_id)
        if describes snapshot_id existing
            then swap clock snapshot_id d files
            else done (failed none)
    ]

  settle : Clock → Text → PendingDescriptor → Collected → Proc FinalizeResult
  unfolding close
  settle clock snapshot_id d bad_marker = done (failed none)
  settle clock snapshot_id d (gathered (key ∷ keys) files) = done (incomplete (key ∷ keys))
  settle clock snapshot_id d (gathered [] files) = close clock snapshot_id d files

  with_descriptor : Clock → Text → Option PendingDescriptor → Proc FinalizeResult
  unfolding ◌>>=◌ settle descriptor_file_error inspect collect
  with_descriptor clock snapshot_id none = done (failed none)
  with_descriptor clock snapshot_id (some d) = elim (descriptor_file_error p d) [
    | some e ↦ done not_retryable
    | none ↦ do
      page ← read (snapshot_page_api_key snapshot_id)
      elim page [
        | none ↦ done (failed none)
        | some _ ↦ do
          inspected ← inspect snapshot_id d.files
          settle clock snapshot_id d (collect d.origin snapshot_id inspected)
      ]
  ]

  unfoldable pub run_finalize : Clock → Text → Proc FinalizeResult
  unfolding ◌>>=◌ with_descriptor current_points_at read_descriptor snapshot_work_expired
  run_finalize clock snapshot_id = do
    mine ← current_points_at snapshot_id
    if mine
        then done already_current
        else if snapshot_work_expired snapshot_id clock.at_start
        then done not_retryable
        else do d ← read_descriptor snapshot_id; with_descriptor clock snapshot_id d

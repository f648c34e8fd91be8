-- ===== src/Worker/Uploads.antt =====
-- `loadOpenDescriptor`, `markerFor`, `handleUploadPublicationFile` and `finishStoredFile` of
-- worker/src/publication-api.ts.
pub mod Routes
pub mod Writes
use utm_curs_i_orar.Prelude.{
  ℕ, ◌*◌, Bool, true, false, ◌&&◌, not, Option, none, some, List, [], ◌∷◌, ltb, ◌==◌, if◌then◌else◌,
}
use utm_curs_i_orar.Text.{Text, codes, text_eq, option_eq, to_lower}
use utm_curs_i_orar.Worker.Types.{PendingFile, PendingDescriptor, CompletionMarker, marker}
use utm_curs_i_orar.Worker.Keys.{pending_completion_key}
use utm_curs_i_orar.Worker.Bucket.{
  Proc, done, stream, read, write, Object, Meta, Upload, written, lost, too_large, bad_prefix,
  bad_hash, bad_length, broken, if_absent, ◌>>=◌, ◌>>◌,
}
use utm_curs_i_orar.Worker.Platform.{Platform, Env}
use utm_curs_i_orar.Worker.Instants.{is_snapshot_id, snapshot_work_expired}
use utm_curs_i_orar.Worker.Jobs.{is_file_id}
use utm_curs_i_orar.Worker.Descriptors.{read_descriptor, descriptor_file_error}
use utm_curs_i_orar.Worker.Opening.{is_sha256_hex}
use utm_curs_i_orar.Worker.Auth.{authorize_publisher, authorized, unauthorized, misconfigured}
use utm_curs_i_orar.Worker.Requests.{
  Request, Response, failure, file_stored, file_already_stored, given, content_type_is,
  content_length_or_null, bounded_observation,
}

abbrev pub max_pdf_bytes : ℕ
max_pdf_bytes = 25 * 1024 * 1024

abbrev pub fail : ℕ → Text → Proc Response
fail status code = done (failure status code)

-- `metadata?.name`
unfoldable pub meta_of : Text → Meta → Option Text
unfolding text_eq
meta_of k [] = none
meta_of k ((j, v) ∷ m) = if text_eq k j then some v else meta_of k m

-- A route behind the publisher's credential.
unfoldable pub as_publisher : Platform → Env → Request → Proc Response → Proc Response
unfolding authorize_publisher
as_publisher p env request route =
    elim (authorize_publisher p env (request.header (codes "authorization"))) [
      | authorized _ ↦ route
      | unauthorized ↦ fail 401 (codes "unauthorized")
      | misconfigured ↦ fail 503 (codes "publisher_credentials_misconfigured")
    ]

open_descriptor :
    Platform → (PendingDescriptor → Proc Response) → Option PendingDescriptor → Proc Response
unfolding descriptor_file_error
open_descriptor p route none = fail 404 (codes "publication_not_found")
open_descriptor p route (some d) = elim (descriptor_file_error p d) [
  | some _ ↦ fail 409 (codes "operation_state_corrupt")
  | none ↦ route d
]

-- `loadOpenDescriptor`, with the rest of the route.
unfoldable pub with_open_descriptor :
    Platform → ℕ → Text → (PendingDescriptor → Proc Response) → Proc Response
unfolding ◌>>=◌ open_descriptor is_snapshot_id snapshot_work_expired read_descriptor
with_open_descriptor p now snapshot_id route =
    if not (is_snapshot_id snapshot_id)
    then fail 404 (codes "publication_not_found")
    else if snapshot_work_expired snapshot_id now
    then fail 410 (codes "operation_expired")
    else do d ← read_descriptor snapshot_id; open_descriptor p route d

-- What a request declares of a file, once checked.
pub record Declared : Type 0 where
  pub sha256 : Text
  pub size : ℕ
  pub observed_etag : Option Text
  pub observed_last_modified : Option Text

unfoldable pub marker_for : Text → Text → PendingFile → ℕ → Declared → CompletionMarker
marker_for completed_at snapshot_id file size d = record {
  snapshot_id = snapshot_id;
  file_id = file.file_id;
  filename = file.filename;
  source_url = file.source_url;
  r2_key = file.r2_key;
  content_type = some (codes "application/pdf");
  size = some size;
  upstream_etag = none;
  upstream_last_modified = none;
  publisher_observed_etag = d.observed_etag;
  publisher_observed_last_modified = d.observed_last_modified;
  content_sha256 = some d.sha256;
  completed_at = completed_at;
}

add_observed : Text → Option Text → Meta → Meta
add_observed k none m = m
add_observed k (some v) m = (k, v) ∷ m

unfoldable pub upload_meta : PendingDescriptor → PendingFile → Declared → Meta
unfolding add_observed
upload_meta d file declared =
    (codes "snapshot_id", d.snapshot_id)
    ∷ (codes "file_id", file.file_id)
    ∷ (codes "source_url", file.source_url)
    ∷ (codes "content_sha256", declared.sha256)
    ∷ add_observed (codes "publisher_observed_etag") declared.observed_etag
        (add_observed (codes "publisher_observed_last_modified") declared.observed_last_modified [])

pub find_file : Text → List PendingFile → Option PendingFile
unfolding text_eq
find_file file_id [] = none
find_file file_id (file ∷ files) =
    if text_eq file.file_id file_id then some file else find_file file_id files

-- The stored object has the file's source and the declared hash.
unfoldable pub is_same_upload : PendingFile → Declared → Object → Bool
unfolding meta_of to_lower text_eq
is_same_upload file declared o =
    option_eq (meta_of (codes "source_url") o.custom) file.source_url
    && (elim (meta_of (codes "content_sha256") o.custom) [
      | none ↦ false
      | some stored ↦ text_eq (to_lower stored) declared.sha256
    ])

module _ (completed_at : Text) (d : PendingDescriptor) (file : PendingFile)
    (declared : Declared) where
  write_marker : ℕ → Response → Proc Response
  unfolding ◌>>=◌ marker_for
  write_marker size answer = do
    write (pending_completion_key d.snapshot_id file.file_id)
        (marker (marker_for completed_at d.snapshot_id file size declared)) if_absent []
    done answer

  finish_stored_file : Object → Proc Response
  unfolding write_marker is_same_upload
  finish_stored_file o =
      if is_same_upload file declared o
      then write_marker o.size (file_already_stored file.file_id o.size declared.sha256)
      else fail 409 (codes "file_conflict")

  -- A concurrent delivery won the create race.
  after_race : Option Object → Proc Response
  unfolding finish_stored_file
  after_race none = fail 409 (codes "file_conflict")
  after_race (some o) = finish_stored_file o

  after_stream : Upload → Proc Response
  unfolding ◌>>=◌ write_marker after_race
  after_stream (written size) = write_marker size (file_stored file.file_id size declared.sha256)
  after_stream lost = do raced ← read file.r2_key; after_race raced
  after_stream too_large = fail 413 (codes "pdf_too_large")
  after_stream bad_prefix = fail 400 (codes "invalid_pdf_magic")
  after_stream bad_hash = fail 400 (codes "content_hash_mismatch")
  after_stream bad_length = fail 400 (codes "length_mismatch")
  after_stream broken = fail 400 (codes "upload_failed")

  store_unless : Option Text → Option Object → Proc Response
  unfolding finish_stored_file after_stream upload_meta
  store_unless body (some o) = finish_stored_file o
  store_unless none none = fail 400 (codes "empty_body")
  store_unless (some _) none =
      stream file.r2_key if_absent (upload_meta d file declared) (λ u. after_stream u)

  store_file : Option Text → Proc Response
  unfolding ◌>>=◌ store_unless
  store_file body = do already ← read file.r2_key; store_unless body already

-- The checks of the headers, in the source's order.
declared_of : Request → Text → ℕ → Declared
unfolding bounded_observation
declared_of request hash size = record {
  sha256 = hash;
  size = size;
  observed_etag = bounded_observation (request.header (codes "x-publisher-observed-etag"));
  observed_last_modified =
      bounded_observation (request.header (codes "x-publisher-observed-last-modified"));
}

check_size : Request → Text → (Declared → Proc Response) → Option ℕ → Proc Response
unfolding declared_of
check_size request hash route none = fail 411 (codes "length_required")
check_size request hash route (some size) =
    if size == 0
    then fail 400 (codes "empty_body")
    else if ltb max_pdf_bytes size
    then fail 413 (codes "pdf_too_large")
    else route (declared_of request hash size)

lowered : Option Text → Text
unfolding to_lower
lowered none = []
lowered (some t) = to_lower t

check_upload : Request → (Declared → Proc Response) → Proc Response
unfolding content_type_is lowered is_sha256_hex content_length_or_null check_size
check_upload request route =
    let hash = lowered (request.header (codes "x-content-sha256")) in
    if not (content_type_is (codes "application/pdf") (request.header (codes "content-type")))
    then fail 415 (codes "invalid_content_type")
    else if not (is_sha256_hex hash)
    then fail 400 (codes "invalid_content_hash")
    else check_size request hash route
        (content_length_or_null (request.header (codes "content-length")))

unfoldable pub handle_upload_publication_file :
    Platform → Env → ℕ → Text → Request → Text → Text → Proc Response
unfolding as_publisher is_file_id with_open_descriptor find_file check_upload store_file
handle_upload_publication_file p env now completed_at request snapshot_id file_id =
    as_publisher p env request (
      if not (is_file_id file_id)
      then fail 400 (codes "invalid_file_id")
      else with_open_descriptor p now snapshot_id (λ d. elim (find_file file_id d.files) [
        | none ↦ fail 404 (codes "unknown_file_id")
        | some file ↦
            check_upload request (λ declared. store_file completed_at d file declared request.body)
      ]))

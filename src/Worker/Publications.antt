-- ===== src/Worker/Publications.antt =====
-- The other publisher routes of worker/src/publication-api.ts: open, read, complete, heartbeat.
pub mod Completing
use utm_curs_i_orar.Prelude.{
  ℕ, ◌*◌, ◌+◌, ◌-◌, ◌^◌, Bool, true, false, ◌&&◌, ◌||◌, not, Option, none, some, List, [], ◌∷◌, ltb,
  leb, ◌==◌, if◌then◌else◌, length, take,
}
use Prim.Native.Nat.{min}
use utm_curs_i_orar.Text.{Text, codes, text_eq, option_eq, to_lower, trim}
use utm_curs_i_orar.Worker.Types.{
  PendingDescriptor, PublisherHeartbeat, HeartbeatStatus, healthy, failing, heartbeat,
  OpenPublicationResult, created, resumed, refused, FinalizeResult, published, already_current,
  superseded, incomplete, failed, Json, num, str, bool, Fields,
}
use utm_curs_i_orar.Worker.Keys.{snapshot_page_api_key, publisher_heartbeat_key}
use utm_curs_i_orar.Worker.Bucket.{Proc, done, read, write, Object, always, ◌>>=◌, ◌>>◌}
use utm_curs_i_orar.Worker.Platform.{Platform, Env}
use utm_curs_i_orar.Worker.Instants.{is_snapshot_id}
use utm_curs_i_orar.Worker.Pointer.{field_of, as_text, as_fields}
use utm_curs_i_orar.Worker.Descriptors.{plan_from, stored_file_ids}
use utm_curs_i_orar.Worker.Finalize.{Clock, run_finalize}
use utm_curs_i_orar.Worker.Opening.{is_uuid_v4, is_sha256_hex}
use utm_curs_i_orar.Worker.Opening.Publication.{OpenPublicationInput, open_publication}
use utm_curs_i_orar.Worker.Requests.{
  Request, Response, failure, publication_created, publication_resumed, publication_open, finalized,
  publication_incomplete, finalize_failed, heartbeat_received, content_type_is,
  content_length_or_null, exceeds, may_be, read_body_within, max_heartbeat_field_length,
}
use utm_curs_i_orar.Worker.Uploads.{fail, meta_of, as_publisher, with_open_descriptor}

abbrev pub max_page_api_upload_bytes : ℕ
max_page_api_upload_bytes = 1024 * 1024

abbrev pub max_heartbeat_bytes : ℕ
max_heartbeat_bytes = 8 * 1024

unfoldable pub answer_open : OpenPublicationResult → Response
answer_open (created plan) = publication_created plan
answer_open (resumed plan) = publication_resumed plan
answer_open (refused status code) = failure status code

module _ (p : Platform) (env : Env) (now : ℕ) where
  unfoldable pub open_with : Text → Text → Text → Text → Proc Response
  unfolding ◌>>=◌ open_publication answer_open
  open_with random operation_id hash page_bytes = do
    result ← open_publication p env (record {
      operation_id = operation_id;
      page_api_sha256 = hash;
      page_bytes = page_bytes;
      now = now;
      random = random;
    })
    done (answer_open result)

  -- The checks of the body against what the headers declare.
  unfoldable pub open_body : Text → Text → Text → Option ℕ → Option Text → Proc Response
  unfolding open_with read_body_within text_eq
  open_body random operation_id hash declared body =
      elim (read_body_within max_page_api_upload_bytes body) [
        | none ↦ fail 413 (codes "page_too_large")
        | some page_bytes ↦
            if length page_bytes == 0
            then fail 400 (codes "empty_page_payload")
            else if not (may_be (length page_bytes) declared)
            then fail 400 (codes "length_mismatch")
            else if not (text_eq (p.sha256_hex page_bytes) hash)
            then fail 400 (codes "page_hash_mismatch")
            else open_with random operation_id (p.sha256_hex page_bytes) page_bytes
      ]

  abbrev pub or_empty : Option Text → Text
  or_empty none = []
  or_empty (some t) = t

  unfoldable pub lowered : Option Text → Text
  unfolding to_lower
  lowered none = []
  lowered (some t) = to_lower t

  unfoldable pub open_checked : Text → Request → Proc Response
  unfolding open_body lowered is_uuid_v4 is_sha256_hex content_type_is content_length_or_null
  open_checked random request =
      let operation_id = or_empty (request.header (codes "x-publication-operation-id")) in
      let hash = lowered (request.header (codes "x-page-sha256")) in
      let declared = content_length_or_null (request.header (codes "content-length")) in
      if not (is_uuid_v4 operation_id)
      then fail 400 (codes "invalid_operation_id")
      else if not (is_sha256_hex hash)
      then fail 400 (codes "invalid_page_hash")
      else if not
          (content_type_is (codes "application/json") (request.header (codes "content-type")))
      then fail 415 (codes "invalid_content_type")
      else if exceeds max_page_api_upload_bytes declared
      then fail 413 (codes "page_too_large")
      else open_body random operation_id hash declared request.body

  unfoldable pub handle_open_publication : Text → Request → Proc Response
  unfolding open_checked as_publisher
  handle_open_publication random request = as_publisher p env request (open_checked random request)

  unfoldable pub handle_get_publication : Request → Text → Proc Response
  unfolding ◌>>=◌ as_publisher with_open_descriptor stored_file_ids plan_from
  handle_get_publication request snapshot_id = as_publisher p env request (
      with_open_descriptor p now snapshot_id
        (λ d. do ids ← stored_file_ids d; done (publication_open (plan_from p now d ids))))

unfoldable pub answer_finalize : FinalizeResult → Response
answer_finalize published = finalized published
answer_finalize already_current = finalized already_current
answer_finalize superseded = finalized superseded
answer_finalize (incomplete missing) = publication_incomplete missing
answer_finalize (failed none) = finalize_failed true
answer_finalize (failed (some retryable)) = finalize_failed retryable

-- The stored page has the descriptor's operation and payload hash.
unfoldable pub provenance_agrees : PendingDescriptor → Object → Bool
unfolding meta_of text_eq
provenance_agrees d o =
    option_eq (meta_of (codes "page_api_sha256") o.custom) d.page_api_sha256
    && option_eq (meta_of (codes "operation_id") o.custom) d.operation_id

module _ (p : Platform) (env : Env) (now : ℕ) (clock : Clock) where
  unfoldable pub complete_stored : Text → PendingDescriptor → Option Object → Proc Response
  unfolding ◌>>=◌ run_finalize answer_finalize provenance_agrees
  complete_stored snapshot_id d none = fail 409 (codes "operation_state_corrupt")
  complete_stored snapshot_id d (some o) =
      if provenance_agrees d o
      then (do result ← run_finalize p clock snapshot_id; done (answer_finalize result))
      else fail 409 (codes "operation_state_corrupt")

  unfoldable pub complete_open : Text → PendingDescriptor → Proc Response
  unfolding ◌>>=◌ complete_stored is_uuid_v4 is_sha256_hex
  complete_open snapshot_id d =
      if not (is_uuid_v4 d.operation_id) || not (is_sha256_hex d.page_api_sha256)
      then fail 409 (codes "operation_state_corrupt")
      else do page ← read (snapshot_page_api_key snapshot_id); complete_stored snapshot_id d page

  unfoldable pub handle_complete_publication : Request → Text → Proc Response
  unfolding as_publisher with_open_descriptor complete_open
  handle_complete_publication request snapshot_id =
      as_publisher p env request
        (with_open_descriptor p now snapshot_id (λ d. complete_open snapshot_id d))

-- `replace(CONTROL_CHARS, " ")`
printable : Text → Text
printable [] = []
printable (c ∷ cs) = (if ltb c 32 || c == 127 then 32 else c) ∷ printable cs

unfoldable pub bounded_string : ℕ → Option Json → Option Text
unfolding printable trim
bounded_string max (some (str t)) = elim (trim t) [
  | [] ↦ none
  | c ∷ cs ↦ some (take max (printable (c ∷ cs)))
]
bounded_string max _ = none

unfoldable pub bounded_integer : ℕ → Option Json → Option ℕ
bounded_integer max (some (num n)) = if leb n (2 ^ 53 - 1) then some (min n max) else none
bounded_integer max _ = none

kept_if : (Text → Bool) → Option Text → Option Text
kept_if test none = none
kept_if test (some t) = if test t then some t else none

boolean_of : Option Json → Option Bool
boolean_of (some (bool b)) = some b
boolean_of _ = none

status_of : Option Text → HeartbeatStatus
unfolding text_eq
status_of none = failing
status_of (some t) = if text_eq t (codes "ok") then healthy else failing

-- The record that a heartbeat becomes: bounded, and stamped with the broker's own clock.
unfoldable pub heartbeat_of : Text → Fields → PublisherHeartbeat
unfolding bounded_string bounded_integer kept_if boolean_of status_of is_uuid_v4 is_snapshot_id
    field_of
heartbeat_of received_at input =
    let bounded = λ (name : Text) (max : ℕ). bounded_string max (field_of name input) in
    record {
      received_at = received_at;
      client_reported_at = bounded (codes "client_reported_at") 64;
      status = status_of (as_text (field_of (codes "status") input));
      outcome = bounded (codes "outcome") 64;
      operation_id = kept_if is_uuid_v4 (bounded (codes "operation_id") max_heartbeat_field_length);
      snapshot_id =
          kept_if is_snapshot_id (bounded (codes "snapshot_id") max_heartbeat_field_length);
      page_modified_gmt = bounded (codes "page_modified_gmt") 32;
      pdf_count = bounded_integer 1000 (field_of (codes "pdf_count") input);
      saw_drift = boolean_of (field_of (codes "saw_drift") input);
      duration_ms = bounded_integer (24 * 60 * 60 * 1000) (field_of (codes "duration_ms") input);
      error = bounded (codes "error") 512;
      logon_model = bounded (codes "logon_model") 32;
      publisher_version = bounded (codes "publisher_version") 32;
    }

unfoldable pub parsed_fields : Option Json → Option Fields
parsed_fields none = none
parsed_fields (some j) = as_fields j

unfoldable pub handle_publisher_heartbeat : Platform → Env → Text → Request → Proc Response
unfolding ◌>>=◌ as_publisher read_body_within parsed_fields heartbeat_of
handle_publisher_heartbeat p env received_at request =
    as_publisher p env request (elim (read_body_within max_heartbeat_bytes request.body) [
      | none ↦ fail 413 (codes "heartbeat_too_large")
      | some body ↦ elim (parsed_fields (p.json_parse (p.decode body))) [
        | none ↦ fail 400 (codes "invalid_heartbeat")
        | some input ↦ do
          write publisher_heartbeat_key (heartbeat (heartbeat_of received_at input)) always []
          done (heartbeat_received received_at)
      ]
    ])

-- ===== src/Worker/Types.antt =====
-- worker/src/types.ts: the records that the broker keeps in its bucket, and its results. A field
-- that is always the literal 1 (`schema_version`) or a fixed literal is left out.
use utm_curs_i_orar.Prelude.{ℕ, Bool, Option, List}
use utm_curs_i_orar.Text.{Text}

pub record SnapshotSource : Type 0 where
  pub page_api_url : Text
  pub page_id : Option ℕ
  pub page_modified_gmt : Option Text
  pub retrieved_at : Text
  pub etag : Option Text
  pub last_modified : Option Text

pub record PendingFile : Type 0 where
  pub file_id : Text
  pub filename : Text
  pub source_url : Text
  pub r2_key : Text

-- Who authored a publication. Only one value is written; a stored one may hold any other.
pub data Origin : Type 0 where
  md_publisher other_origin : Origin

pub record PendingDescriptor : Type 0 where
  pub snapshot_id : Text
  pub previous_snapshot_id : Option Text
  pub created_at : Text
  pub current_etag : Option Text
  pub operation_id : Text
  pub page_api_sha256 : Text
  pub origin : Origin
  pub source : SnapshotSource
  pub files : List PendingFile

pub record OperationRecord : Type 0 where
  pub operation_id : Text
  pub snapshot_id : Text
  pub page_api_sha256 : Text
  pub created_at : Text

pub data HeartbeatStatus : Type 0 where
  healthy failing : HeartbeatStatus

pub record PublisherHeartbeat : Type 0 where
  pub received_at : Text
  pub client_reported_at : Option Text
  pub status : HeartbeatStatus
  pub outcome : Option Text
  pub operation_id : Option Text
  pub snapshot_id : Option Text
  pub page_modified_gmt : Option Text
  pub pdf_count : Option ℕ
  pub saw_drift : Option Bool
  pub duration_ms : Option ℕ
  pub error : Option Text
  pub logon_model : Option Text
  pub publisher_version : Option Text

pub record CompletionMarker : Type 0 where
  pub snapshot_id : Text
  pub file_id : Text
  pub filename : Text
  pub source_url : Text
  pub r2_key : Text
  pub content_type : Option Text
  pub size : Option ℕ
  pub upstream_etag : Option Text
  pub upstream_last_modified : Option Text
  pub publisher_observed_etag : Option Text
  pub publisher_observed_last_modified : Option Text
  pub content_sha256 : Option Text
  pub completed_at : Text

pub record SnapshotFile : Type 0 where
  pub filename : Text
  pub source_url : Text
  pub r2_key : Text
  pub content_type : Option Text
  pub size : ℕ
  pub upstream_etag : Option Text
  pub upstream_last_modified : Option Text
  pub publisher_observed_etag : Option Text
  pub publisher_observed_last_modified : Option Text
  pub content_sha256 : Option Text

pub record SnapshotManifest : Type 0 where
  pub snapshot_id : Text
  pub previous_snapshot_id : Option Text
  pub created_at : Text
  pub source : SnapshotSource
  pub files : List SnapshotFile

pub record CurrentPointer : Type 0 where
  pub snapshot_id : Text
  pub updated_at : Text
  pub published_at : Text
  pub manifest_r2_key : Text
  pub page_modified_gmt : Option Text
  pub page_id : Option ℕ
  pub pdf_count : ℕ

pub record LegacyCurrentPointer : Type 0 where
  pub snapshot_id : Text
  pub updated_at : Text
  pub published_at : Text
  pub manifest_r2_key : Text

pub data ParsedCurrentPointer : Type 0 where
  strict : CurrentPointer → ParsedCurrentPointer
  legacy : LegacyCurrentPointer → ParsedCurrentPointer

pub record AcceptedPointer : Type 0 where
  pub course_year : ℕ
  pub accepted_id : Text
  pub payload_key : Text
  pub payload_sha256 : Text
  pub source_snapshot_id : Text
  pub source_pdf_url : Text
  pub source_pdf_hash : Text
  pub parser_version : Text
  pub accepted_at : Text

pub record AcceptedPointerWriteRequest : Type 0 where
  pub expected_previous_accepted_id : Option Text
  pub pointer : AcceptedPointer

pub data PublicationJob : Type 0 where
  finalize : Text → PublicationJob
  reconcile : PublicationJob

pub data FileStatus : Type 0 where
  needed stored : FileStatus

pub record PublicationPlanFile : Type 0 where
  pub file_id : Text
  pub filename : Text
  pub source_url : Text
  pub upload_path : Text
  pub status : FileStatus

pub record PublicationPlan : Type 0 where
  pub snapshot_id : Text
  pub operation_id : Text
  pub page_api_sha256 : Text
  pub created_at : Text
  pub expires_at : Text
  pub files : List PublicationPlanFile

pub data OpenPublicationResult : Type 0 where
  created resumed : PublicationPlan → OpenPublicationResult
  refused : ℕ → Text → OpenPublicationResult

pub data FinalizeResult : Type 0 where
  published already_current superseded : FinalizeResult
  incomplete : List Text → FinalizeResult
  failed : Option Bool → FinalizeResult

pub data ReconcileResult : Type 0 where
  reconciled : ℕ → ℕ → ReconcileResult
  reconcile_failed : ReconcileResult

-- What JSON.parse returns. A number that is no integer between 0 and 2⁵³ - 1 keeps its spelling.
mutual
  pub data Json : Type 0 where
    null : Json
    bool : Bool → Json
    num : ℕ → Json
    other_num : Text → Json
    str : Text → Json
    arr : Items → Json
    obj : Fields → Json

  pub data Items : Type 0 where
    nil : Items
    cons : Json → Items → Items

  pub data Fields : Type 0 where
    end : Fields
    field : Text → Json → Fields → Fields

-- The body of an object: the JSON text of a document, or bytes.
pub data Body : Type 0 where
  bytes : Text → Body
  operation : OperationRecord → Body
  descriptor : PendingDescriptor → Body
  marker : CompletionMarker → Body
  manifest : SnapshotManifest → Body
  current : CurrentPointer → Body
  accepted : AcceptedPointer → Body
  heartbeat : PublisherHeartbeat → Body
  cursor : Option Text → Body

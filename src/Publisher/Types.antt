-- ===== src/Publisher/Types.antt =====
-- tools/md-publisher/src/types.ts. Messages for a reader (`reason`, log lines) and `duration_ms` are
-- left out, and a field that is always the same literal.
use utm_curs_i_orar.Prelude.{ℕ, Bool, Option, List}
use utm_curs_i_orar.Text.{Text}
use utm_curs_i_orar.Publisher.Calls.{Failure}

pub record PublisherConfig : Type 0 where
  pub broker_url : Text
  pub token : Text
  pub logon_model : Option Text
  pub version : Text

-- `RecordedPdf` and `BaselinePdf`, which have the same fields.
pub record BaselinePdf : Type 0 where
  pub source_url : Text
  pub etag : Option Text
  pub last_modified : Option Text
  pub sha256 : Text

pub record LastRunState : Type 0 where
  pub page_api_url : Option Text
  pub broker_snapshot_id : Text
  pub page_etag : Option Text
  pub page_last_modified : Option Text
  pub page_api_sha256 : Text
  pub page_modified_gmt : Option Text
  pub pdfs : List BaselinePdf
  pub outcome : Text
  pub completed_at : Text

pub record CurrentPointerView : Type 0 where
  pub snapshot_id : Text
  pub published_at : Option Text
  pub page_modified_gmt : Option Text

pub data BaselineOrigin : Type 0 where
  broker_snapshot local_cache : BaselineOrigin

pub record FreshnessBaseline : Type 0 where
  pub origin : BaselineOrigin
  pub page_api_url : Option Text
  pub broker_snapshot_id : Text
  pub page_api_sha256 : Text
  pub page_etag : Option Text
  pub page_last_modified : Option Text
  pub page_modified_gmt : Option Text
  pub pdfs : List BaselinePdf

pub record ResolvedBaseline : Type 0 where
  pub baseline : Option FreshnessBaseline
  pub current_snapshot_id : Option Text

pub record ManifestFileView : Type 0 where
  pub source_url : Text
  pub content_sha256 : Option Text
  pub publisher_observed_etag : Option Text
  pub publisher_observed_last_modified : Option Text

pub record ManifestView : Type 0 where
  pub snapshot_id : Text
  pub page_api_url : Option Text
  pub page_modified_gmt : Option Text
  pub files : List ManifestFileView

pub record OperationState : Type 0 where
  pub operation_id : Text
  pub page_api_sha256 : Text
  pub snapshot_id : Option Text
  pub started_at : Text

pub data PlanStatus : Type 0 where
  needed stored : PlanStatus

pub record PlanFile : Type 0 where
  pub file_id : Text
  pub filename : Text
  pub source_url : Text
  pub upload_path : Text
  pub status : PlanStatus

pub data Opened : Type 0 where
  created resumed : Opened

pub record PublicationPlan : Type 0 where
  pub status : Opened
  pub snapshot_id : Text
  pub operation_id : Text
  pub page_api_sha256 : Text
  pub created_at : Text
  pub expires_at : Text
  pub files : List PlanFile

pub data PublishOutcome : Type 0 where
  unchanged published superseded dry_run error : PublishOutcome

pub data HeartbeatDelivery : Type 0 where
  delivered failed skipped : HeartbeatDelivery

pub record PublishResult : Type 0 where
  pub outcome : PublishOutcome
  pub snapshot_id : Option Text
  pub operation_id : Option Text
  pub page_modified_gmt : Option Text
  pub pdf_count : ℕ
  pub saw_drift : Bool
  pub error : Option Failure
  pub baseline_source : Option BaselineOrigin
  pub broker_snapshot_id : Option Text
  pub heartbeat : HeartbeatDelivery
  pub exit_code : ℕ

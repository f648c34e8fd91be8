-- ===== src/Publisher/Attempt.antt =====
-- One publication attempt, in tools/md-publisher/src/publish.ts: what a plan still needs is
-- uploaded, and the publication is completed; and the attempt that an earlier run left open.
use utm_curs_i_orar.Prelude.{
  ℕ, Bool, true, false, ◌&&◌, ◌||◌, not, Option, none, some, List, [], ◌∷◌, ltb, ◌==◌,
  if◌then◌else◌,
}
use utm_curs_i_orar.Text.{Text, codes, text_eq}
use utm_curs_i_orar.Worker.Types.{Json, num, Fields}
use utm_curs_i_orar.Worker.Pointer.{field_of}
use utm_curs_i_orar.Worker.Platform.{Platform}
use utm_curs_i_orar.Worker.Policy.{canonical_page_id, legacy_page_id}
use utm_curs_i_orar.Publisher.Calls.{
  Failure, broker_error, other_error, Act, done, fail, ◌>>=◌, removing, run_temp_path,
}
use utm_curs_i_orar.Publisher.Types.{
  PublisherConfig, BaselinePdf, FreshnessBaseline, OperationState, PlanFile, needed, stored,
  PublicationPlan,
}
use utm_curs_i_orar.Publisher.Broker.Client.{open_publication, upload_file, complete}
use utm_curs_i_orar.Publisher.Store.{
  read_resumable_operation, start_operation, update_operation, discard_run,
}
use utm_curs_i_orar.Publisher.Upstream.{DownloadedPdf, download_pdf}
use utm_curs_i_orar.Publisher.Detect.{DetectionOutcome, Validators, document_fields}

unfoldable pub entry_for {ℓ} : {A : Type ℓ} → Text → List (Text × A) → Option A
entry_for key [] = none
entry_for key ((k, a) ∷ entries) = if text_eq k key then some a else entry_for key entries

-- `a ?? b`
unfoldable pub or_else : Option Text → Option Text → Option Text
or_else none b = b
or_else (some a) b = some a

unfoldable pub refreshed_pdf : Option Validators → BaselinePdf → BaselinePdf
unfolding or_else
refreshed_pdf none pdf = pdf
refreshed_pdf (some (etag, modified)) pdf = record pdf {
  etag = or_else etag pdf.etag;
  last_modified = or_else modified pdf.last_modified;
}

unfoldable pub refreshed_pdfs : List (Text × Validators) → List BaselinePdf → List BaselinePdf
unfolding refreshed_pdf entry_for
refreshed_pdfs observed [] = []
refreshed_pdfs observed (pdf ∷ pdfs) =
    refreshed_pdf (entry_for pdf.source_url observed) pdf ∷ refreshed_pdfs observed pdfs

-- `refreshedAnchoredBaseline`: only validators move.
unfoldable pub refreshed_anchored_baseline :
    FreshnessBaseline → DetectionOutcome → FreshnessBaseline
unfolding refreshed_pdfs or_else
refreshed_anchored_baseline b d = record b {
  page_etag = or_else d.page_etag b.page_etag;
  page_last_modified = or_else d.page_last_modified b.page_last_modified;
  pdfs = refreshed_pdfs d.observed b.pdfs;
}

unfoldable pub is_fresh_identity_required : Failure → Bool
is_fresh_identity_required (broker_error status code) =
    text_eq code (codes "operation_payload_mismatch") || text_eq code (codes "operation_expired")
is_fresh_identity_required _ = false

unfoldable pub is_unrecoverable : Failure → Bool
is_unrecoverable (broker_error status code) = text_eq code (codes "operation_state_corrupt")
is_unrecoverable _ = false

unfoldable pub is_broker_error : Failure → Bool
is_broker_error (broker_error status code) = true
is_broker_error _ = false

module _ (p : Platform) (config : PublisherConfig) where
  unfoldable pub upload_body : PlanFile → DownloadedPdf → Act Bool
  unfolding upload_file
  upload_body file body =
      upload_file p config file.upload_path body.path body.size body.sha256 body.etag
        body.last_modified

  unfoldable pub upload_needed : PlanFile → Option DownloadedPdf → Act (Unit {0})
  unfolding ◌>>=◌ upload_body
  upload_needed file (some cached) = do already ← upload_body file cached; done tt
  upload_needed file none = do
    body ← download_pdf p file.source_url (run_temp_path file.file_id)
    already ← upload_body file body
    removing body.path

  unfoldable pub upload_plan_files : List PlanFile → List (Text × DownloadedPdf) → Act (Unit {0})
  unfolding ◌>>=◌ upload_needed entry_for
  upload_plan_files [] downloaded = done tt
  upload_plan_files (file ∷ files) downloaded = elim file.status [
    | stored ↦ upload_plan_files files downloaded
    | needed ↦ do
      u ← upload_needed file (entry_for file.source_url downloaded)
      upload_plan_files files downloaded
  ]

  -- `parsePageIdentity`: a positive safe integer.
  unfoldable pub page_id_of : Option Fields → Option ℕ
  page_id_of none = none
  page_id_of (some f) = elim (field_of (codes "id") f) [
    | some (num n) ↦ if ltb 0 n && ltb n 9007199254740992 then some n else none
    | _ ↦ none
  ]

  unfoldable pub parse_page_identity : Text → Option ℕ
  unfolding document_fields page_id_of
  parse_page_identity bytes = page_id_of (document_fields (p.json_parse (p.decode bytes)))

  unfoldable pub resumed_detection : OperationState → Text → DetectionOutcome
  resumed_detection operation bytes = record {
    changed = true;
    page_bytes = bytes;
    page_sha256 = operation.page_api_sha256;
    page_etag = none;
    page_last_modified = none;
    downloaded = [];
    observed = [];
  }

  unfoldable pub resume_with :
      Option (OperationState × Text) → Act (Option (Text × DetectionOutcome))
  unfolding ◌>>=◌ parse_page_identity resumed_detection
  resume_with none = done none
  resume_with (some (operation, bytes)) = elim (parse_page_identity bytes) [
    | none ↦ fail (other_error (codes "corrupt"))
    | some id ↦
        if id == legacy_page_id
        then (do u ← discard_run; done none)
        else if not (id == canonical_page_id)
        then fail (other_error (codes "unknown page"))
        else done (some (operation.operation_id, resumed_detection operation bytes))
  ]

  unfoldable pub resume_detection : Act (Option (Text × DetectionOutcome))
  unfolding ◌>>=◌ resume_with
  resume_detection = do found ← read_resumable_operation p; resume_with found

module _ (p : Platform) (stringify : Json → Text) (config : PublisherConfig) where
  unfoldable pub operation_for : DetectionOutcome → Text → Text → Option Text → OperationState
  operation_for d operation_id started_at snapshot_id = record {
    operation_id = operation_id;
    page_api_sha256 = d.page_sha256;
    snapshot_id = snapshot_id;
    started_at = started_at;
  }

  -- `attemptPublication`: the plan and how it was completed.
  unfoldable pub attempt_publication : DetectionOutcome → Text → Text → Act (PublicationPlan × Text)
  unfolding ◌>>=◌ operation_for
  attempt_publication d operation_id started_at = do
    u ← start_operation stringify (operation_for d operation_id started_at none) d.page_bytes
    plan ← open_publication p config operation_id d.page_bytes d.page_sha256
    v ← update_operation stringify (operation_for d operation_id started_at (some plan.snapshot_id))
    w ← upload_plan_files p config plan.files d.downloaded
    status ← complete p config plan.snapshot_id
    done (plan, status)

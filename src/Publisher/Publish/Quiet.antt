-- ===== src/Publisher/Publish/Quiet.antt =====
-- The parts of a run that neither ask what the broker serves nor touch the record of the last run:
-- reading a snapshot, an attempt, the heartbeat (tools/md-publisher/src).
use utm_curs_i_orar.Prelude.{
  ◌≡◌, refl, true, false, ◌&&◌, not, ◌⊎◌, Option, none, some, List, [], ◌∷◌, inl, inr, ◌==◌,
}
use utm_curs_i_orar.Text.{Text, codes, text_eq}
use utm_curs_i_orar.Worker.Types.{Json}
use utm_curs_i_orar.Worker.Instants.{is_snapshot_id}
use utm_curs_i_orar.Worker.Platform.{Platform}
use utm_curs_i_orar.Worker.Policy.{canonical_page_api_url, is_official_timetable_pdf_url}
use utm_curs_i_orar.Publisher.Calls.{
  Call, get, json, upload, read_file, write_file, remove, clock, new_operation_id, Act, done,
  removing, ◌>>=◌, LocalPath, last_run_file, operation_file, page_file, run_dir, cache_dir,
  cache_path, run_temp_path,
}
use utm_curs_i_orar.Publisher.Calls.Rules.{
  History, Ensures, at_done, at_fail, at_ask, at_if, Ensures-mono, Anything, at_then,
  settled-Anything,
}
use utm_curs_i_orar.Publisher.Types.{
  PublisherConfig, OperationState, PlanFile, PlanStatus, needed, stored,
}
use utm_curs_i_orar.Publisher.Broker.Asking.{at_exchange, at_request}
use utm_curs_i_orar.Publisher.Broker.Client.{
  answered, get_request, manifest_path, read_manifest, page_path, read_snapshot_page_api,
  open_publication, open_request, upload_file, complete, complete_request, complete_path,
}
use utm_curs_i_orar.Publisher.Broker.Serving.{
  is_current, Elsewhere, snapshot_elsewhere, same_prefix,
}
use utm_curs_i_orar.Publisher.Store.{start_operation, update_operation}
use utm_curs_i_orar.Publisher.Upstream.{DownloadedPdf}
use utm_curs_i_orar.Publisher.Upstream.Fetching.{Probes, download_pdf-Ensures}
use utm_curs_i_orar.Publisher.Detect.{DetectionOutcome}
use utm_curs_i_orar.Publisher.Attempt.{
  entry_for, upload_body, upload_needed, upload_plan_files, attempt_publication,
}

abbrev pub NotRecord : LocalPath → Type 0
NotRecord last_run_file = ⊥
NotRecord operation_file = Unit
NotRecord page_file = Unit
NotRecord run_dir = Unit
NotRecord cache_dir = Unit
NotRecord (cache_path url) = Unit
NotRecord (run_temp_path id) = Unit

pub status_cases : (s : PlanStatus) → (s ≡ stored) ⊎ (s ≡ needed)
status_cases stored = inl refl
status_cases needed = inr refl

module _ (p : Platform) (config : PublisherConfig) where
  abbrev pub Quiet : History → Call → Type 0
  Quiet h (get url etag modified) =
      (url ≡ canonical_page_api_url) ⊎ (is_official_timetable_pdf_url p url ≡ true)
  Quiet h (json r) = is_current p config r ≡ false
  Quiet h (write_file path contents) = NotRecord path
  Quiet h (upload u) = Unit
  Quiet h (read_file path) = Unit
  Quiet h (remove path) = Unit
  Quiet h clock = Unit
  Quiet h new_operation_id = Unit

  abbrev pub Quietly : {A : Type 0} → History → Act A → Type 0
  Quietly h m = Ensures Quiet Anything h m

  pub Quiet-Elsewhere : (h : History) (c : Call) → Quiet h c → Elsewhere p config c
  Quiet-Elsewhere h (json r) q = q
  Quiet-Elsewhere h (get url etag modified) q = tt
  Quiet-Elsewhere h (write_file path contents) q = tt
  Quiet-Elsewhere h (upload u) q = tt
  Quiet-Elsewhere h (read_file path) q = tt
  Quiet-Elsewhere h (remove path) q = tt
  Quiet-Elsewhere h clock q = tt
  Quiet-Elsewhere h new_operation_id q = tt

  pub Probes-Quiet : (h : History) (c : Call) → Probes p h c → Quiet h c
  Probes-Quiet h (json r) q = absurd q
  Probes-Quiet h (get url etag modified) q = q
  Probes-Quiet h (write_file (cache_path u) contents) q = tt
  Probes-Quiet h (write_file (run_temp_path i) contents) q = tt
  Probes-Quiet h (write_file last_run_file contents) q = q
  Probes-Quiet h (write_file operation_file contents) q = tt
  Probes-Quiet h (write_file page_file contents) q = tt
  Probes-Quiet h (write_file run_dir contents) q = tt
  Probes-Quiet h (write_file cache_dir contents) q = tt
  Probes-Quiet h (upload u) q = tt
  Probes-Quiet h (read_file path) q = tt
  Probes-Quiet h (remove path) q = tt
  Probes-Quiet h clock q = tt
  Probes-Quiet h new_operation_id q = tt

  pub read_manifest-Quiet : (h : History) (id : Text) → Quietly h (read_manifest p config id)
  unfolding read_manifest
  read_manifest-Quiet h id =
      at_if (not (is_snapshot_id id)) (λ bad. at_fail tt)
        (λ good.
          at_request (get_request p config (manifest_path p config id)) _
            (snapshot_elsewhere p config _))

  pub read_page-Quiet : (h : History) (id : Text) → Quietly h (read_snapshot_page_api p config id)
  unfolding read_snapshot_page_api
  read_page-Quiet h id =
      at_if (not (is_snapshot_id id)) (λ bad. at_fail tt)
        (λ good.
          at_request (get_request p config (page_path p config id)) _
            (snapshot_elsewhere p config _))

  open-Quiet :
      (h : History) (operation_id bytes sha256 : Text)
      → Quietly h (open_publication p config operation_id bytes sha256)
  unfolding open_publication text_eq
  open-Quiet h operation_id bytes sha256 =
      at_request (open_request p config operation_id bytes sha256) _
        (same_prefix p config config.broker_url (codes "/publications") (codes "/current.json"))

  complete-Quiet : (h : History) (id : Text) → Quietly h (complete p config id)
  unfolding complete text_eq
  complete-Quiet h id =
      at_then _
        (at_exchange (complete_request p config id) (
          same_prefix p config config.broker_url (complete_path p config id)
            (codes "/current.json")))
        (λ h' r. at_if (not (r.status == 200)) (λ bad. at_fail tt) (λ good. at_done tt))

  upload-Quiet :
      (h : History) (file : PlanFile) (body : DownloadedPdf)
      → Quietly h (upload_body p config file body)
  unfolding upload_body upload_file ◌>>=◌ answered
  upload-Quiet h file body = at_ask tt (elim [
    | none ↦ at_fail tt
    | some r ↦
        at_if (not (r.status == 200) && not (r.status == 201)) (λ bad. at_fail tt)
          (λ good. at_done tt)
  ])

  needed-Quiet :
      (h : History) (file : PlanFile) (cached : Option DownloadedPdf)
      → Quietly h (upload_needed p config file cached)
  unfolding upload_needed
  needed-Quiet h file (some cached) =
      at_then (λ already. done tt) (upload-Quiet h file cached) (λ h' already. at_done tt)
  needed-Quiet h file none =
      at_then _
        (Ensures-mono Probes-Quiet (λ h' o x. tt)
          (download_pdf-Ensures p file.source_url (run_temp_path file.file_id) h tt))
        (λ h' body.
          at_then (λ already. removing body.path) (upload-Quiet h' file body)
            (λ h'' already. at_ask tt (λ a. settled-Anything a)))

  uploads-Quiet :
      (files : List PlanFile) (downloaded : List (Text × DownloadedPdf)) (h : History)
      → Quietly h (upload_plan_files p config files downloaded)
  unfolding upload_plan_files
  uploads-Quiet [] downloaded h = at_done tt
  uploads-Quiet (file ∷ files) downloaded h = elim (status_cases file.status) [
    | inl e ↦ rw (e, upload_plan_files) (uploads-Quiet files downloaded h)
    | inr e ↦
        rw (e, upload_plan_files)
          (at_then (λ u. upload_plan_files p config files downloaded)
            (needed-Quiet h file (entry_for file.source_url downloaded))
            (λ h' u. uploads-Quiet files downloaded h'))
  ]

  update-Quiet :
      (stringify : Json → Text) (state : OperationState) (h : History)
      → Quietly h (update_operation stringify state)
  unfolding update_operation
  update-Quiet stringify state h = at_ask tt (λ a. settled-Anything a)

  start-Quiet :
      (stringify : Json → Text) (state : OperationState) (bytes : Text) (h : History)
      → Quietly h (start_operation stringify state bytes)
  unfolding start_operation
  start-Quiet stringify state bytes h = at_then _ (at_ask tt (λ a. settled-Anything a)) (λ h' u.
      at_then _ (at_ask tt (λ a. settled-Anything a)) (λ h'' v. update-Quiet stringify state h''))

  -- An attempt never asks for the pointer and leaves the record of the last run alone.
  pub attempt_publication-Quiet :
      (stringify : Json → Text) (d : DetectionOutcome) (operation_id started_at : Text)
      (h : History)
      → Quietly h (attempt_publication p stringify config d operation_id started_at)
  unfolding attempt_publication
  attempt_publication-Quiet stringify d operation_id started_at h =
      at_then _ (start-Quiet stringify _ d.page_bytes h) (λ h1 u.
        at_then _ (open-Quiet h1 operation_id d.page_bytes d.page_sha256) (λ h2 plan.
          at_then _ (update-Quiet stringify _ h2) (λ h3 x.
            at_then _ (uploads-Quiet plan.files d.downloaded h3) (λ h4 y.
              at_then (λ status. done (plan, status)) (complete-Quiet h4 plan.snapshot_id)
                (λ h5 status. at_done tt)))))

-- ===== src/Publisher/Publish.antt =====
-- `runPublish` and `sendHeartbeat` of tools/md-publisher/src/publish.ts.
pub mod Quiet
pub mod Deriving
pub mod Anchored
pub mod Delivering
pub mod Reporting
pub mod Sparing
use utm_curs_i_orar.Prelude.{
  ℕ, Bool, true, false, ◌&&◌, ◌||◌, not, Option, none, some, List, [], ◌∷◌, ◌==◌, length,
  if◌then◌else◌,
}
use utm_curs_i_orar.Text.{Text, codes, text_eq}
use utm_curs_i_orar.Worker.Types.{Json, null, num, str, bool, obj, Fields, end, field}
use utm_curs_i_orar.Worker.Platform.{Platform}
use utm_curs_i_orar.Publisher.Calls.{
  Failure, Act, done, fail, call, caught, ◌>>=◌, Outcome, returned, raised, clock, new_operation_id,
}
use utm_curs_i_orar.Publisher.Types.{
  PublisherConfig, BaselineOrigin, FreshnessBaseline, ResolvedBaseline, PublicationPlan,
  PublishOutcome, unchanged, published, superseded, dry_run, error, delivered, failed, skipped,
  PublishResult,
}
use utm_curs_i_orar.Publisher.Broker.Client.{heartbeat}
use utm_curs_i_orar.Publisher.Records.{nullable}
use utm_curs_i_orar.Publisher.Store.{write_last_run, discard_run, clear_cache}
use utm_curs_i_orar.Publisher.Baseline.{
  page_modified_gmt_of, last_run_from, resolve_baseline, CacheRefresh, refresh_cache_from_broker,
}
use utm_curs_i_orar.Publisher.Detect.{DetectionOutcome, detect_change}
use utm_curs_i_orar.Publisher.Attempt.{
  or_else, refreshed_anchored_baseline, is_fresh_identity_required, is_unrecoverable,
  resume_detection, attempt_publication,
}

-- The runtime, with `JSON.stringify` and the message of an error.
pub record Host : Type 0 where
  pub platform : Platform
  pub stringify : Json → Text
  pub message_of : Failure → Text

-- `base`
abbrev pub base : PublishResult
base = record {
  outcome = error;
  snapshot_id = none;
  operation_id = none;
  page_modified_gmt = none;
  pdf_count = 0;
  saw_drift = false;
  error = none;
  baseline_source = none;
  broker_snapshot_id = none;
  heartbeat = skipped;
  exit_code = 1;
}

-- The variables `baselineSource` and `brokerSnapshotId` of a run.
pub record Known : Type 0 where
  pub baseline_source : Option BaselineOrigin
  pub broker_snapshot_id : Option Text

abbrev pub nothing_known : Known
nothing_known = record { baseline_source = none; broker_snapshot_id = none }

unfoldable pub known_of : ResolvedBaseline → Known
known_of r = record {
  baseline_source = elim r.baseline [ none ↦ none | some b ↦ some b.origin ];
  broker_snapshot_id = r.current_snapshot_id;
}

unfoldable pub outcome_text : PublishOutcome → Text
outcome_text unchanged = codes "unchanged"
outcome_text published = codes "published"
outcome_text superseded = codes "superseded"
outcome_text dry_run = codes "dry_run"
outcome_text error = codes "error"

unfoldable pub is_error : PublishOutcome → Bool
is_error error = true
is_error _ = false

-- What the attempt is for: its id, the detected change and, if it was resumed, that id again.
pub record Prepared : Type 0 where
  pub operation_id : Text
  pub detection : DetectionOutcome
  pub resumed_operation_id : Option Text
  pub known : Known

module _ (host : Host) (config : PublisherConfig) where
  open host use {platform, stringify, message_of}

  unfoldable pub heartbeat_json : Text → PublishResult → Json
  unfolding nullable outcome_text is_error
  heartbeat_json at r = obj (
      field (codes "schema_version") (num 1) (
        field (codes "client_reported_at") (str at) (
          field (codes "status") (str (if is_error r.outcome then codes "error" else codes "ok")) (
            field (codes "outcome") (str (outcome_text r.outcome)) (
              field (codes "operation_id") (nullable r.operation_id) (
                field (codes "snapshot_id") (nullable r.snapshot_id) (
                  field (codes "page_modified_gmt") (nullable r.page_modified_gmt) (
                    field (codes "pdf_count") (num r.pdf_count) (
                      field (codes "saw_drift") (bool r.saw_drift) (
                        field (codes "error")
                          (elim r.error [ none ↦ null | some e ↦ str (message_of e) ])
                          (field (codes "logon_model") (nullable config.logon_model)
                            (field (codes "publisher_version") (str config.version) end))))))))))))

  -- `sendHeartbeat`
  unfoldable pub send_heartbeat : PublishResult → Act Bool
  unfolding ◌>>=◌ heartbeat_json
  send_heartbeat r = do at ← call clock; heartbeat platform config (stringify (heartbeat_json at r))

  -- `deliver`: what becomes of the heartbeat changes nothing else.
  unfoldable pub deliver : Bool → PublishResult → Act PublishResult
  unfolding ◌>>=◌ send_heartbeat
  deliver dry r = if dry then done r else do
    sent ← send_heartbeat r
    done (record r { heartbeat = if sent then delivered else failed })

  -- A run that fails before an attempt.
  unfoldable pub report_check_failure : Bool → Known → Failure → Act PublishResult
  unfolding ◌>>=◌ deliver
  report_check_failure dry known e = do
    u ← clear_cache
    deliver dry (record base {
      error = some e;
      baseline_source = known.baseline_source;
      broker_snapshot_id = known.broker_snapshot_id;
    })

  unfoldable pub record_unchanged : Option FreshnessBaseline → DetectionOutcome → Act (Unit {0})
  unfolding ◌>>=◌ refreshed_anchored_baseline last_run_from
  record_unchanged none d = done tt
  record_unchanged (some b) d = do
    at ← call clock
    write_last_run stringify
        (last_run_from (refreshed_anchored_baseline b d) (codes "unchanged") at)

  unfoldable pub baseline_modified : Option FreshnessBaseline → Option Text
  baseline_modified none = none
  baseline_modified (some b) = b.page_modified_gmt

  unfoldable pub report_unchanged : Bool → ResolvedBaseline → DetectionOutcome → Act PublishResult
  unfolding ◌>>=◌ deliver record_unchanged known_of or_else baseline_modified
  report_unchanged dry resolved d = do
    u ← clear_cache
    v ← record_unchanged resolved.baseline d
    deliver dry (record base {
      outcome = unchanged;
      page_modified_gmt =
          or_else (page_modified_gmt_of platform config d.page_bytes)
            (baseline_modified resolved.baseline);
      baseline_source = (known_of resolved).baseline_source;
      broker_snapshot_id = (known_of resolved).broker_snapshot_id;
      exit_code = 0;
    })

  unfoldable pub report_attempt_failure : Prepared → Text → Failure → Act PublishResult
  unfolding ◌>>=◌ deliver
  report_attempt_failure pr operation_id e = do
    u ← clear_cache
    deliver false (record base {
      operation_id = some operation_id;
      page_modified_gmt = page_modified_gmt_of platform config pr.detection.page_bytes;
      saw_drift = true;
      error = some e;
      baseline_source = pr.known.baseline_source;
      broker_snapshot_id = pr.known.broker_snapshot_id;
    })

  unfoldable pub close_attempt : Prepared → Text → PublicationPlan × Text → Act PublishResult
  unfolding ◌>>=◌ deliver outcome_text
  close_attempt pr operation_id (plan, status) =
      let outcome : PublishOutcome =
        if text_eq status (codes "superseded") then superseded else published in
      do
        at ← call clock
        u ← discard_run
        v ← clear_cache
        refreshed ← refresh_cache_from_broker platform stringify config (outcome_text outcome) at
        deliver false (record base {
          outcome = outcome;
          snapshot_id = some plan.snapshot_id;
          operation_id = some operation_id;
          page_modified_gmt = page_modified_gmt_of platform config pr.detection.page_bytes;
          pdf_count = length plan.files;
          saw_drift = true;
          baseline_source = pr.known.baseline_source;
          broker_snapshot_id = refreshed.broker_snapshot_id;
          exit_code = 0;
        })

  unfoldable pub after_retry :
      Prepared → Text → Outcome (PublicationPlan × Text) → Act PublishResult
  unfolding report_attempt_failure close_attempt
  after_retry pr retry_id (raised e) = report_attempt_failure pr retry_id e
  after_retry pr retry_id (returned r) = close_attempt pr retry_id r

  unfoldable pub retry : Prepared → Text → Act PublishResult
  unfolding ◌>>=◌ after_retry
  retry pr started_at = do
    u ← discard_run
    retry_id ← call new_operation_id
    again ← caught (attempt_publication platform stringify config pr.detection retry_id started_at)
    after_retry pr retry_id again

  unfoldable pub after_attempt :
      Prepared → Text → Outcome (PublicationPlan × Text) → Act PublishResult
  unfolding report_attempt_failure close_attempt retry
  after_attempt pr started_at (returned r) = close_attempt pr pr.operation_id r
  after_attempt pr started_at (raised e) =
      if is_unrecoverable e
      then report_attempt_failure pr pr.operation_id e
      else if not (is_fresh_identity_required e)
      then report_attempt_failure pr pr.operation_id e
      else retry pr started_at

  unfoldable pub report_dry_run : Prepared → Act PublishResult
  unfolding ◌>>=◌
  report_dry_run pr = do
    u ← clear_cache
    done (record base {
      outcome = dry_run;
      operation_id = pr.resumed_operation_id;
      page_modified_gmt = page_modified_gmt_of platform config pr.detection.page_bytes;
      saw_drift = true;
      baseline_source = pr.known.baseline_source;
      broker_snapshot_id = pr.known.broker_snapshot_id;
      exit_code = 0;
    })

  unfoldable pub publish_change : Bool → Text → Prepared → Act PublishResult
  unfolding ◌>>=◌ report_dry_run after_attempt
  publish_change dry started_at pr = if dry then report_dry_run pr else do
    attempt ←
        caught
          (attempt_publication platform stringify config pr.detection pr.operation_id started_at)
    after_attempt pr started_at attempt

  unfoldable pub after_detect :
      Bool → Text → ResolvedBaseline → Outcome (DetectionOutcome × Text) → Act PublishResult
  unfolding report_check_failure report_unchanged publish_change known_of
  after_detect dry started_at resolved (raised e) = report_check_failure dry (known_of resolved) e
  after_detect dry started_at resolved (returned (d, operation_id)) =
      if not d.changed
      then report_unchanged dry resolved d
      else publish_change dry started_at (record {
        operation_id = operation_id;
        detection = d;
        resumed_operation_id = none;
        known = known_of resolved;
      })

  unfoldable pub detect_with : ResolvedBaseline → Act (DetectionOutcome × Text)
  unfolding ◌>>=◌
  detect_with resolved = do
    d ← detect_change platform resolved.baseline
    operation_id ← call new_operation_id
    done (d, operation_id)

  unfoldable pub after_resolve : Bool → Text → Outcome ResolvedBaseline → Act PublishResult
  unfolding ◌>>=◌ report_check_failure detect_with after_detect
  after_resolve dry started_at (raised e) = report_check_failure dry nothing_known e
  after_resolve dry started_at (returned r) = do
    o ← caught (detect_with r)
    after_detect dry started_at r o

  unfoldable pub start_fresh : Act ResolvedBaseline
  unfolding ◌>>=◌
  start_fresh = do u ← discard_run; resolve_baseline platform config

  unfoldable pub after_resume :
      Bool → Text → Outcome (Option (Text × DetectionOutcome)) → Act PublishResult
  unfolding ◌>>=◌ report_check_failure publish_change start_fresh after_resolve
  after_resume dry started_at (raised e) = report_check_failure dry nothing_known e
  after_resume dry started_at (returned (some (operation_id, d))) =
      publish_change dry started_at (record {
        operation_id = operation_id;
        detection = d;
        resumed_operation_id = some operation_id;
        known = nothing_known;
      })
  after_resume dry started_at (returned none) = do
    o ← caught start_fresh
    after_resolve dry started_at o

  unfoldable pub run_publish : Bool → Act PublishResult
  unfolding ◌>>=◌ after_resume
  run_publish dry = do
    started_at ← call clock
    o ← caught (resume_detection platform config)
    after_resume dry started_at o

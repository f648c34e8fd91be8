-- ===== src/Publisher/Check.antt =====
-- `runCheck` of tools/md-publisher/src/publish.ts: detection only.
pub mod Harmless
pub mod Reporting
use utm_curs_i_orar.Prelude.{Bool, true, false, Option, none, some, if◌then◌else◌}
use utm_curs_i_orar.Publisher.Calls.{Act, done, caught, ◌>>=◌, Outcome, returned, raised}
use utm_curs_i_orar.Publisher.Types.{
  PublisherConfig, ResolvedBaseline, dry_run, unchanged, PublishResult,
}
use utm_curs_i_orar.Publisher.Store.{clear_cache}
use utm_curs_i_orar.Publisher.Baseline.{page_modified_gmt_of, resolve_baseline}
use utm_curs_i_orar.Publisher.Detect.{DetectionOutcome, detect_change}
use utm_curs_i_orar.Publisher.Publish.{Host, base, known_of}

-- A broker that cannot be read gives no baseline.
unfoldable pub resolved_or_none : Outcome ResolvedBaseline → ResolvedBaseline
resolved_or_none (returned r) = r
resolved_or_none (raised e) = record { baseline = none; current_snapshot_id = none }

module _ (host : Host) (config : PublisherConfig) where
  open host use {platform}

  unfoldable pub check_result : ResolvedBaseline → Outcome DetectionOutcome → PublishResult
  unfolding known_of page_modified_gmt_of
  check_result resolved (returned d) = record base {
    outcome = if d.changed then dry_run else unchanged;
    page_modified_gmt = page_modified_gmt_of platform config d.page_bytes;
    saw_drift = d.changed;
    baseline_source = (known_of resolved).baseline_source;
    broker_snapshot_id = (known_of resolved).broker_snapshot_id;
    exit_code = 0;
  }
  check_result resolved (raised e) = record base {
    error = some e;
    baseline_source = (known_of resolved).baseline_source;
    broker_snapshot_id = (known_of resolved).broker_snapshot_id;
  }

  unfoldable pub check_against : ResolvedBaseline → Act PublishResult
  unfolding ◌>>=◌ caught check_result
  check_against resolved = do
    o ← caught (detect_change platform resolved.baseline)
    u ← clear_cache
    done (check_result resolved o)

  unfoldable pub run_check : Act PublishResult
  unfolding ◌>>=◌ caught check_against resolved_or_none
  run_check = do o ← caught (resolve_baseline platform config); check_against (resolved_or_none o)

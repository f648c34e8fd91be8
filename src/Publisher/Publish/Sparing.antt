-- ===== src/Publisher/Publish/Sparing.antt =====
-- How many calls of a kind a run of the publisher makes, from what delivering a report and
-- publishing a change make (`runPublish` of tools/md-publisher/src/publish.ts). The kind leaves out
-- what only reads at the broker.
pub mod Opens
use utm_curs_i_orar.Prelude.{
  ℕ, zero, ◌≡◌, refl, [], inl, inr, Bool, true, false, not, Option, none, some, Option-cases, ◌==◌,
}
use utm_curs_i_orar.Text.{Text}
use utm_curs_i_orar.Worker.Policy.{legacy_page_id, canonical_page_id}
use utm_curs_i_orar.Publisher.Calls.{
  Failure, Call, get, json, upload, read_file, write_file, remove, clock, new_operation_id, Act,
  done, call, caught, ◌>>=◌, Outcome, returned, raised, JsonRequest, get_method, LocalPath,
}
use utm_curs_i_orar.Publisher.Calls.Rules.{History, Ensures, Anything}
use utm_curs_i_orar.Publisher.Calls.Counting.{
  counts, AtMost, most_done, most_fail, most_free, most_any, most_if, most_caught, most_then,
  most_settling, most_none,
}
use utm_curs_i_orar.Publisher.Types.{
  PublisherConfig, CurrentPointerView, FreshnessBaseline, ResolvedBaseline, OperationState,
  PublishResult,
}
use utm_curs_i_orar.Publisher.Broker.Client.{read_current_pointer}
use utm_curs_i_orar.Publisher.Store.{read_resumable_operation, read_page_of, write_last_run}
use utm_curs_i_orar.Publisher.Records.{operation_text}
use utm_curs_i_orar.Publisher.Baseline.{
  last_run_from, resolve_baseline, broker_snapshot_baseline, CacheRefresh, invalidate,
  record_derived, refresh_at, refresh, or_invalidate, refresh_cache_from_broker,
}
use utm_curs_i_orar.Publisher.Upstream.Fetching.{Probes}
use utm_curs_i_orar.Publisher.Detect.{DetectionOutcome}
use utm_curs_i_orar.Publisher.Detect.Unchanged.{detect_change-Ensures}
use utm_curs_i_orar.Publisher.Attempt.{
  refreshed_anchored_baseline, parse_page_identity, resume_with, resume_detection,
}
use utm_curs_i_orar.Publisher.Publish.{
  Host, Known, nothing_known, known_of, Prepared, deliver, report_check_failure, record_unchanged,
  report_unchanged, publish_change, after_detect, detect_with, after_resolve, start_fresh,
  after_resume, run_publish,
}
use utm_curs_i_orar.Publisher.Check.Harmless.{
  Harmless, Probes-Harmless, read_current-Harmless, snapshot-Harmless, resolve_baseline-Harmless,
}

module _ (host : Host) (config : PublisherConfig) (requests : JsonRequest → Bool) (uploads : Bool)
    (reads : (r : JsonRequest) → r.method ≡ get_method → requests r ≡ false) where
  open host use {platform, stringify}

  abbrev pub Most : {A : Type 0} → ℕ → Act A → Type 0
  Most n m = AtMost (counts requests uploads) n m

  Harmless-free :
      (h : History) (c : Call) → Harmless platform h c → counts requests uploads c ≡ false
  Harmless-free h (get url etag modified) q = refl
  Harmless-free h (json r) q = reads r q
  Harmless-free h (upload u) q = absurd q
  Harmless-free h (read_file path) q = refl
  Harmless-free h (write_file path contents) q = refl
  Harmless-free h (remove path) q = refl
  Harmless-free h clock q = refl
  Harmless-free h new_operation_id q = refl

  harmless-Most : {A : Type 0} {m : Act A} → Ensures (Harmless platform) Anything [] m → Most zero m
  harmless-Most e = most_none Harmless-free e

  pub Probes-Most :
      {A : Type 0} {Q : History → Outcome A → Type 0} {h : History} {m : Act A}
      → Ensures (Probes platform) Q h m
      → Most zero m
  Probes-Most e = most_none (λ h' c q. Harmless-free h' c (Probes-Harmless platform h' c q)) e

  invalidate-Most : (id : Option Text) → Most zero (invalidate id)
  unfolding invalidate ◌>>=◌
  invalidate-Most id = most_free refl (λ u. most_settling _ u most_done)

  record-Most :
      (outcome at id : Text) (derived : Option FreshnessBaseline)
      → Most zero (record_derived platform stringify config outcome at id derived)
  unfolding record_derived write_last_run ◌>>=◌
  record-Most outcome at id none = invalidate-Most (some id)
  record-Most outcome at id (some b) = most_free refl (λ u. most_settling _ u most_done)

  refresh_at-Most :
      (outcome at : Text) (current : Option CurrentPointerView)
      → Most zero (refresh_at platform stringify config outcome at current)
  unfolding refresh_at
  refresh_at-Most outcome at none = invalidate-Most none
  refresh_at-Most outcome at (some v) =
      most_then _ (harmless-Most (snapshot-Harmless platform config v.snapshot_id []))
        (record-Most outcome at v.snapshot_id)

  or_invalidate-Most : (o : Outcome CacheRefresh) → Most zero (or_invalidate o)
  unfolding or_invalidate
  or_invalidate-Most (returned r) = most_done
  or_invalidate-Most (raised e) = invalidate-Most none

  pub refresh_cache-Most :
      (outcome at : Text)
      → Most zero (refresh_cache_from_broker platform stringify config outcome at)
  unfolding refresh_cache_from_broker refresh
  refresh_cache-Most outcome at =
      most_then _
        (most_caught (
          most_then _ (harmless-Most (read_current-Harmless platform config []))
            (refresh_at-Most outcome at)))
        or_invalidate-Most

  resume-Most : (o : Option (OperationState × Text)) → Most zero (resume_with platform config o)
  unfolding resume_with ◌>>=◌
  resume-Most none = most_done
  resume-Most (some (operation, bytes)) =
      elim (Option-cases (parse_page_identity platform config bytes)) [
        | inl e ↦ rw (e, resume_with) most_fail
        | inr (id, e) ↦
            rw (e, resume_with)
              (most_if (id == legacy_page_id) (most_free refl (λ u. most_settling _ u most_done))
                (most_if (not (id == canonical_page_id)) most_fail most_done))
      ]

  page-Most : (o : Option OperationState) → Most zero (read_page_of platform o)
  unfolding read_page_of ◌>>=◌
  page-Most none = most_done
  page-Most (some s) = most_free refl (λ bytes. most_done)

  resume_detection-Most : Most zero (resume_detection platform config)
  unfolding resume_detection read_resumable_operation ◌>>=◌
  resume_detection-Most =
      most_free refl (λ t. most_then _ (page-Most (operation_text platform t)) resume-Most)

  start-Most : Most zero (start_fresh host config)
  unfolding start_fresh ◌>>=◌
  start-Most =
      most_free refl
        (λ u. most_settling _ u (harmless-Most (resolve_baseline-Harmless platform config [])))

  detect_with-Most : (r : ResolvedBaseline) → Most zero (detect_with host config r)
  unfolding detect_with ◌>>=◌
  detect_with-Most r =
      most_then _ (Probes-Most (detect_change-Ensures platform r.baseline []))
        (λ d. most_free refl (λ id. most_done))

  module _ (dry : Bool) (n : ℕ)
      (delivers : (r : PublishResult) → Most zero (deliver host config dry r))
      (publishes : (at : Text) (pr : Prepared)
        → Most n (publish_change host config dry at pr)) where
    failure-Most :
        (known : Known) (e : Failure) → Most n (report_check_failure host config dry known e)
    unfolding report_check_failure ◌>>=◌
    failure-Most known e = most_free refl (λ u. most_settling _ u (most_any n (delivers _)))

    unchanged-Most :
        (r : ResolvedBaseline) (baseline : Option FreshnessBaseline) (d : DetectionOutcome)
        → r.baseline ≡ baseline
        → Most n (report_unchanged host config dry r d)
    unfolding report_unchanged record_unchanged write_last_run last_run_from
        refreshed_anchored_baseline ◌>>=◌
    unchanged-Most r none d is =
        rw (is, report_unchanged)
          (most_free refl (λ u. most_settling _ u (most_any n (delivers _))))
    unchanged-Most r (some b) d is =
        rw (is, report_unchanged)
          (most_free refl (λ u. most_settling _ u (
            most_free refl
              (λ at. most_free refl (λ v. most_settling _ v (most_any n (delivers _)))))))

    after_detect-Most :
        (at : Text) (r : ResolvedBaseline) (o : Outcome (DetectionOutcome × Text))
        → Most n (after_detect host config dry at r o)
    unfolding after_detect
    after_detect-Most at r (raised e) = failure-Most (known_of r) e
    after_detect-Most at r (returned (d, id)) =
        most_if (not d.changed) (unchanged-Most r r.baseline d refl) (publishes at _)

    after_resolve-Most :
        (at : Text) (o : Outcome ResolvedBaseline) → Most n (after_resolve host config dry at o)
    unfolding after_resolve
    after_resolve-Most at (raised e) = failure-Most nothing_known e
    after_resolve-Most at (returned r) =
        most_then _ (most_caught (detect_with-Most r)) (after_detect-Most at r)

    after_resume-Most :
        (at : Text) (o : Outcome (Option (Text × DetectionOutcome)))
        → Most n (after_resume host config dry at o)
    unfolding after_resume
    after_resume-Most at (raised e) = failure-Most nothing_known e
    after_resume-Most at (returned (some (id, d))) = publishes at _
    after_resume-Most at (returned none) =
        most_then _ (most_caught start-Most) (after_resolve-Most at)

    -- A run makes no more calls of the kind than publishing a change.
    pub run-Most : Most n (run_publish host config dry)
    unfolding run_publish ◌>>=◌
    run-Most =
        most_free refl
          (λ at. most_then _ (most_caught resume_detection-Most) (after_resume-Most at))

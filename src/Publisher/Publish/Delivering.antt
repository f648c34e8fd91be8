-- ===== src/Publisher/Publish/Delivering.antt =====
-- The reports of a run that fails or finds nothing changed (tools/md-publisher/src/publish.ts).
use utm_curs_i_orar.Prelude.{
  ◌≡◌, refl, Bool, true, false, ◌⊎◌, Option, none, some, List, [], ◌∷◌, inl, inr, All,
}
use utm_curs_i_orar.Text.{Text, codes, text_eq}
use utm_curs_i_orar.Publisher.Calls.{
  Failure, Call, Answer, write_file, remove, clock, Act, ◌>>=◌, Outcome, returned, raised,
  last_run_file, cache_dir,
}
use utm_curs_i_orar.Publisher.Calls.Rules.{
  Event, History, Ensures, at_done, at_ask, at_settled, HasRefused,
}
use utm_curs_i_orar.Publisher.Types.{
  PublisherConfig, BaselinePdf, FreshnessBaseline, ResolvedBaseline, unchanged, error,
  PublishResult,
}
use utm_curs_i_orar.Publisher.Broker.Client.{heartbeat}
use utm_curs_i_orar.Publisher.Broker.Serving.{Serves, Serves-Elsewhere, same_prefix, Elsewhere}
use utm_curs_i_orar.Publisher.Store.{write_last_run}
use utm_curs_i_orar.Publisher.Baseline.{page_modified_gmt_of, last_run_from}
use utm_curs_i_orar.Publisher.Detect.{DetectionOutcome}
use utm_curs_i_orar.Publisher.Detect.Checking.{IsSamePdf, IsSamePdf-grows}
use utm_curs_i_orar.Publisher.Detect.Unchanged.{IsUnchanged}
use utm_curs_i_orar.Publisher.Attempt.{refreshed_anchored_baseline}
use utm_curs_i_orar.Publisher.Publish.{
  Host, Known, known_of, Prepared, is_error, base, send_heartbeat, deliver, report_check_failure,
  record_unchanged, report_unchanged, report_attempt_failure,
}
use utm_curs_i_orar.Publisher.Publish.Anchored.{Records, IsResolved}

-- A failure is reported with its error and the exit code 1, anything else without and with 0.
abbrev pub IsConsistent : PublishResult → Type 0
IsConsistent r =
    ((r.outcome ≡ error) × (r.exit_code ≡ 1) × ((e : Failure) × (r.error ≡ some e)))
    ⊎ ((is_error r.outcome ≡ false) × (r.exit_code ≡ 0) × (r.error ≡ none))

module _ (host : Host) (config : PublisherConfig) where
  open host use {platform, stringify, message_of}

  -- The baseline of the snapshot that the broker was last seen to serve, of which the source was
  -- seen to have the same page and the same PDFs.
  abbrev pub IsConfirmed : History → PublishResult → Type 0
  IsConfirmed h r =
      (b : FreshnessBaseline) × Serves platform config h b.broker_snapshot_id
      × (r.broker_snapshot_id ≡ some b.broker_snapshot_id)
      × IsUnchanged platform (some b) h

  abbrev pub Reports : History → Outcome PublishResult → Type 0
  Reports h (returned r) = (r.outcome ≡ unchanged → IsConfirmed h r) × IsConsistent r
  Reports h (raised e) = HasRefused h

  abbrev pub Runs : History → Act PublishResult → Type 0
  Runs h m = Ensures (Records platform stringify config) Reports h m

  pub pdfs-grow :
      (e : Event) (h : History) (pdfs : List BaselinePdf)
      → All (IsSamePdf platform h) pdfs
      → All (IsSamePdf platform (e ∷ h)) pdfs
  pdfs-grow e h [] x = tt
  pdfs-grow e h (pdf ∷ pdfs) (x, xs) = (IsSamePdf-grows platform e h pdf x, pdfs-grow e h pdfs xs)

  pub IsUnchanged-grows :
      (e : Event) (h : History) (b : FreshnessBaseline)
      → IsUnchanged platform (some b) h
      → IsUnchanged platform (some b) (e ∷ h)
  IsUnchanged-grows e h b (some_pdfs, (r, there, same), pdfs) =
      (some_pdfs, (r, inr there, same), pdfs-grow e h b.pdfs pdfs)

  abbrev pub IsEvident : History → FreshnessBaseline → Type 0
  IsEvident h b = Serves platform config h b.broker_snapshot_id × IsUnchanged platform (some b) h

  pub IsEvident-grows :
      (h : History) (c : Call) (a : Answer c) (b : FreshnessBaseline)
      → Elsewhere platform config c
      → IsEvident h b
      → IsEvident ((c, a) ∷ h) b
  IsEvident-grows h c a b e (serves, same) = (
    Serves-Elsewhere platform config h c a b.broker_snapshot_id e serves,
    IsUnchanged-grows (c, a) h b same,
  )

  pub IsConfirmed-grows :
      (h : History) (c : Call) (a : Answer c) (r : PublishResult)
      → Elsewhere platform config c
      → IsConfirmed h r
      → IsConfirmed ((c, a) ∷ h) r
  IsConfirmed-grows h c a r e (b, serves, named, same) =
      let grown = IsEvident-grows h c a b e (serves, same) in (b, grown.0, named, grown.1)

  pub deliver-Ensures :
      (dry : Bool) (r : PublishResult) (h : History)
      → (r.outcome ≡ unchanged → IsConfirmed h r)
      → IsConsistent r
      → Runs h (deliver host config dry r)
  unfolding deliver send_heartbeat heartbeat ◌>>=◌ text_eq
  deliver-Ensures true r h confirmed consistent = at_done (confirmed, consistent)
  deliver-Ensures false r h confirmed consistent = at_ask tt (λ at. at_ask tt (λ a. at_done (
    λ e.
        IsConfirmed-grows _ _ a r
          (same_prefix platform config config.broker_url (codes "/publisher/heartbeat")
            (codes "/current.json"))
          (IsConfirmed-grows h clock at r tt (confirmed e)),
    consistent,
  )))

  pub failure-Ensures :
      (dry : Bool) (known : Known) (e : Failure) (h : History)
      → Runs h (report_check_failure host config dry known e)
  unfolding report_check_failure ◌>>=◌
  failure-Ensures dry known e h = at_ask tt (λ u.
      at_settled _ u (λ bad. inl bad)
        (λ ok. deliver-Ensures dry _ _ (λ x. cc) (inl (refl, refl, (e, refl)))))

  pub attempt_failure-Ensures :
      (pr : Prepared) (id : Text) (e : Failure) (h : History)
      → Runs h (report_attempt_failure host config pr id e)
  unfolding report_attempt_failure ◌>>=◌
  attempt_failure-Ensures pr id e h = at_ask tt (λ u.
      at_settled _ u (λ bad. inl bad)
        (λ ok.
          deliver-Ensures false
            (record base {
              operation_id = some id;
              page_modified_gmt = page_modified_gmt_of platform config pr.detection.page_bytes;
              saw_drift = true;
              error = some e;
              baseline_source = pr.known.baseline_source;
              broker_snapshot_id = pr.known.broker_snapshot_id;
            })
            _ (λ x. cc) (inl (refl, refl, (e, refl)))))

  pub unchanged-Ensures :
      (dry : Bool) (r : ResolvedBaseline) (baseline : Option FreshnessBaseline)
      (d : DetectionOutcome) (h : History)
      → r.baseline ≡ baseline
      → IsResolved platform stringify config h r
      → IsUnchanged platform baseline h
      → Runs h (report_unchanged host config dry r d)
  unfolding report_unchanged record_unchanged write_last_run last_run_from
      refreshed_anchored_baseline known_of ◌>>=◌
  unchanged-Ensures dry r none d h is resolved same = absurd same
  unchanged-Ensures dry r (some b) d h is resolved same =
      let (serves, named) = resolved b is in
      let start : IsEvident h b = (serves, same) in
      rw (is, report_unchanged)
        (at_ask tt (λ u.
          at_settled _ u (λ bad. inl bad)
            (λ cleared.
              let first : IsEvident ((remove cache_dir, u) ∷ h) b =
                IsEvident-grows h (remove cache_dir) u b tt start in
              at_ask tt (λ at.
                let second : IsEvident ((clock, at) ∷ (remove cache_dir, u) ∷ h) b =
                  IsEvident-grows _ clock at b tt first in
                at_ask (_, refl, second.0)
                  (λ v.
                    at_settled _ v (λ bad. inl bad)
                      (λ written.
                        let third = IsEvident-grows _ (write_file last_run_file _) v b tt second in
                        deliver-Ensures dry _ _ (λ x. (b, third.0, named, third.1))
                          (inr (refl, refl, refl))))))))

-- ===== src/Publisher/Check/Reporting.antt =====
-- What a check of the publisher reports (`runCheck` of tools/md-publisher/src/publish.ts).
use utm_curs_i_orar.Prelude.{
  ◌≡◌, refl, ◌∙◌, Bool, true, false, Option, none, some, ◌∷◌, inl, inr, if◌then◌else◌,
}
use utm_curs_i_orar.Publisher.Calls.{remove, ◌>>=◌, Outcome, returned, raised, cache_dir}
use utm_curs_i_orar.Publisher.Calls.Rules.{
  History, Ensures, at_done, at_ask, at_bind, at_settled, at_caught, Ensures-mono, Ensures-since,
}
use utm_curs_i_orar.Publisher.Types.{
  PublisherConfig, FreshnessBaseline, ResolvedBaseline, dry_run, unchanged, PublishResult,
}
use utm_curs_i_orar.Publisher.Detect.{DetectionOutcome, detect_change}
use utm_curs_i_orar.Publisher.Detect.Unchanged.{IsUnchanged, Detects, detect_change-Ensures}
use utm_curs_i_orar.Publisher.Publish.{Host, known_of, is_error}
use utm_curs_i_orar.Publisher.Publish.Quiet.{Probes-Quiet, Quiet-Elsewhere}
use utm_curs_i_orar.Publisher.Publish.Anchored.{IsResolved, Resolves}
use utm_curs_i_orar.Publisher.Publish.Delivering.{Reports, IsConfirmed, IsConfirmed-grows}
use utm_curs_i_orar.Publisher.Publish.Reporting.{IsResolved-grows}
use utm_curs_i_orar.Publisher.Check.{resolved_or_none, check_result, check_against}
use utm_curs_i_orar.Publisher.Check.Harmless.{Harmless, Probes-Harmless}

not_changed : (b : Bool) → (if b then dry_run else unchanged) ≡ unchanged → b ≡ false
not_changed true e = cc
not_changed false e = refl

no_error : (b : Bool) → is_error (if b then dry_run else unchanged) ≡ false
unfolding is_error
no_error true = refl
no_error false = refl

module _ (host : Host) (config : PublisherConfig) where
  open host use {platform, stringify}

  confirmed :
      (r : ResolvedBaseline) (baseline : Option FreshnessBaseline) (h : History) (x : PublishResult)
      → r.baseline ≡ baseline
      → IsResolved platform stringify config h r
      → IsUnchanged platform baseline h
      → x.broker_snapshot_id ≡ r.current_snapshot_id
      → IsConfirmed host config h x
  confirmed r none h x is resolved same named = absurd same
  confirmed r (some b) h x is resolved same named =
      let (serves, current) = resolved b is in (b, serves, named ∙ current, same)

  -- What detection saw, and what the broker was seen to serve before it.
  abbrev Seen : ResolvedBaseline → History → Outcome DetectionOutcome → Type 0
  Seen r h o = Detects platform r.baseline h o × IsResolved platform stringify config h r

  closed :
      (r : ResolvedBaseline) (h : History) (o : Outcome DetectionOutcome) (u : Bool)
      → Seen r h o
      → Reports host config ((remove cache_dir, u) ∷ h) (returned (check_result host config r o))
  unfolding check_result known_of
  closed r h (raised e) u x = (λ bad. cc, inl (refl, refl, (e, refl)))
  closed r h (returned d) u (same, resolved) = (
    λ e.
        IsConfirmed-grows host config h (remove cache_dir) u
          (check_result host config r (returned d)) tt
          (confirmed r r.baseline h (check_result host config r (returned d)) refl resolved
            (same (not_changed d.changed e)) refl),
    inr (no_error d.changed, refl, refl),
  )

  check_against-Ensures :
      (r : ResolvedBaseline) (h : History)
      → IsResolved platform stringify config h r
      → Ensures (Harmless platform) (Reports host config) h (check_against host config r)
  unfolding check_against ◌>>=◌
  check_against-Ensures r h resolved = at_bind _ (
      at_caught (
        Ensures-mono (λ h' c x. Probes-Harmless platform h' c x.0)
          (λ h' o x.
            at_ask tt
              (λ u. at_settled _ u (λ bad. inl bad) (λ cleared. at_done (closed r h' o u x))))
          (Ensures-since (λ h'. IsResolved platform stringify config h' r)
            (λ h' c a q k.
              IsResolved-grows host config r h' c a
                (Quiet-Elsewhere platform config h' c (Probes-Quiet platform config h' c q)) k)
            h (detect_change platform r.baseline) resolved
            (detect_change-Ensures platform r.baseline h))))

  after_resolve :
      (h : History) (o : Outcome ResolvedBaseline)
      → Resolves platform stringify config h o
      → Ensures
          (Harmless platform)
          (Reports host config)
          h
          (check_against host config (resolved_or_none o))
  unfolding resolved_or_none
  after_resolve h (returned r) x = check_against-Ensures r h x
  after_resolve h (raised e) x = check_against-Ensures _ h (λ b is. cc)

-- ===== src/Publisher/Publish/Reporting.antt =====
-- What a whole run of the publisher reports, and what that rests on
-- (`runPublish` of tools/md-publisher/src/publish.ts).
use utm_curs_i_orar.Prelude.{◌≡◌, false, Option, none, some, ◌∷◌}
use utm_curs_i_orar.Text.{Text}
use utm_curs_i_orar.Publisher.Calls.{Call, Answer, Outcome, returned, raised}
use utm_curs_i_orar.Publisher.Calls.Rules.{Event, History}
use utm_curs_i_orar.Publisher.Types.{PublisherConfig, FreshnessBaseline, ResolvedBaseline}
use utm_curs_i_orar.Publisher.Broker.Serving.{Serves-Elsewhere, Elsewhere}
use utm_curs_i_orar.Publisher.Detect.{DetectionOutcome}
use utm_curs_i_orar.Publisher.Detect.Unchanged.{IsUnchanged}
use utm_curs_i_orar.Publisher.Publish.{Host}
use utm_curs_i_orar.Publisher.Publish.Anchored.{Records, IsResolved}
use utm_curs_i_orar.Publisher.Publish.Delivering.{IsUnchanged-grows}

module _ (host : Host) (config : PublisherConfig) where
  open host use {platform, stringify, message_of}

  -- What detection rests on, with what the broker was seen to serve.
  abbrev Detected : ResolvedBaseline → History → Outcome (DetectionOutcome × Text) → Type 0
  Detected r h (returned (d, id)) =
      (d.changed ≡ false → IsUnchanged platform r.baseline h)
      × IsResolved platform stringify config h r
  Detected r h (raised e) = Unit

  pub baseline_grows :
      (baseline : Option FreshnessBaseline) (e : Event) (h : History)
      → IsUnchanged platform baseline h
      → IsUnchanged platform baseline (e ∷ h)
  baseline_grows none e h x = x
  baseline_grows (some b) e h x = IsUnchanged-grows host config e h b x

  pub IsResolved-grows :
      (r : ResolvedBaseline) (h : History) (c : Call) (a : Answer c)
      → Elsewhere platform config c
      → IsResolved platform stringify config h r
      → IsResolved platform stringify config ((c, a) ∷ h) r
  IsResolved-grows r h c a e resolved b is =
      let (serves, named) = resolved b is in
      (Serves-Elsewhere platform config h c a b.broker_snapshot_id e serves, named)

-- ===== src/Publisher/Publish/Deriving.antt =====
-- A baseline that is derived from a snapshot is of that snapshot
-- (`brokerSnapshotBaseline` of tools/md-publisher/src/baseline.ts).
use utm_curs_i_orar.Prelude.{◌≡◌, refl, Option, none, some, List, ◌==◌, length}
use utm_curs_i_orar.Text.{Text}
use utm_curs_i_orar.Worker.Platform.{Platform}
use utm_curs_i_orar.Publisher.Calls.{done, Outcome, returned, raised}
use utm_curs_i_orar.Publisher.Calls.Rules.{
  History, Ensures, at_done, at_if, at_bind, Continues, Ensures-mono,
}
use utm_curs_i_orar.Publisher.Types.{PublisherConfig, BaselinePdf, FreshnessBaseline, ManifestView}
use utm_curs_i_orar.Publisher.Baseline.{
  baseline_pdfs, baseline_with_page, baseline_with_pdfs, baseline_with_manifest,
  broker_snapshot_baseline,
}
use utm_curs_i_orar.Publisher.Publish.Quiet.{Quiet, read_manifest-Quiet, read_page-Quiet}

module _ (p : Platform) (config : PublisherConfig) where
  abbrev pub IsDerived : Text → History → Outcome (Option FreshnessBaseline) → Type 0
  IsDerived id h (returned none) = Unit
  IsDerived id h (returned (some b)) = b.broker_snapshot_id ≡ id
  IsDerived id h (raised e) = Unit

  page-IsDerived :
      (id : Text) (m : ManifestView) (pdfs : List BaselinePdf) (page : Option Text) (h : History)
      → IsDerived id h (returned (baseline_with_page p config id m pdfs page))
  unfolding baseline_with_page
  page-IsDerived id m pdfs none h = tt
  page-IsDerived id m pdfs (some page) h = refl

  pages-IsDerived :
      (id : Text) (m : ManifestView) (pdfs : List BaselinePdf) (h : History)
      (o : Outcome (Option Text))
      → Unit {0}
      → Continues
          (Quiet p config)
          (IsDerived id)
          (λ page. done (baseline_with_page p config id m pdfs page))
          h
          o
  pages-IsDerived id m pdfs h (returned page) x = at_done (page-IsDerived id m pdfs page h)
  pages-IsDerived id m pdfs h (raised e) x = tt

  pdfs-IsDerived :
      (id : Text) (m : ManifestView) (pdfs : Option (List BaselinePdf)) (h : History)
      → Ensures (Quiet p config) (IsDerived id) h (baseline_with_pdfs p config id m pdfs)
  unfolding baseline_with_pdfs
  pdfs-IsDerived id m none h = at_done tt
  pdfs-IsDerived id m (some pdfs) h =
      at_bind (λ page. done (baseline_with_page p config id m pdfs page))
        (Ensures-mono (λ h' c x. x) (pages-IsDerived id m pdfs) (read_page-Quiet p config h id))

  manifest-IsDerived :
      (id : Text) (h : History) (o : Outcome (Option ManifestView))
      → Unit {0}
      → Continues (Quiet p config) (IsDerived id) (baseline_with_manifest p config id) h o
  unfolding baseline_with_manifest
  manifest-IsDerived id h (raised e) x = tt
  manifest-IsDerived id h (returned none) x = at_done tt
  manifest-IsDerived id h (returned (some m)) x =
      at_if (length m.files == 0) (λ e. at_done tt)
        (λ e. pdfs-IsDerived id m (baseline_pdfs m.files) h)

  pub IsDerived-Quiet :
      (id : Text) (h : History)
      → Ensures (Quiet p config) (IsDerived id) h (broker_snapshot_baseline p config id)
  unfolding broker_snapshot_baseline
  IsDerived-Quiet id h =
      at_bind (baseline_with_manifest p config id)
        (Ensures-mono (λ h' c x. x) (manifest-IsDerived id) (read_manifest-Quiet p config h id))

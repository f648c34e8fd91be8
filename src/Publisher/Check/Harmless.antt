-- ===== src/Publisher/Check/Harmless.antt =====
-- What a check of the publisher may call, and what it reports
-- (`runCheck` of tools/md-publisher/src/publish.ts).
use utm_curs_i_orar.Prelude.{◌≡◌, refl, true, not, ◌⊎◌, Option, none, some, List, ◌==◌, length}
use utm_curs_i_orar.Text.{Text}
use utm_curs_i_orar.Worker.Platform.{Platform}
use utm_curs_i_orar.Worker.Instants.{is_snapshot_id}
use utm_curs_i_orar.Worker.Policy.{canonical_page_api_url, is_official_timetable_pdf_url}
use utm_curs_i_orar.Publisher.Calls.{
  Call, get, json, upload, read_file, write_file, remove, clock, new_operation_id, Act, ◌>>=◌,
  get_method, LocalPath, cache_dir, last_run_file, operation_file, page_file, run_dir, cache_path,
  run_temp_path,
}
use utm_curs_i_orar.Publisher.Calls.Rules.{
  History, Ensures, at_done, at_fail, at_ask, at_if, Anything, at_then,
}
use utm_curs_i_orar.Publisher.Types.{
  PublisherConfig, BaselinePdf, ManifestView, CurrentPointerView, LastRunState,
}
use utm_curs_i_orar.Publisher.Broker.Asking.{at_request}
use utm_curs_i_orar.Publisher.Broker.Client.{
  get_request, current_path, read_current_pointer, manifest_path, read_manifest, page_path,
  read_snapshot_page_api,
}
use utm_curs_i_orar.Publisher.Store.{read_last_run}
use utm_curs_i_orar.Publisher.Baseline.{
  baseline_with_pdfs, baseline_with_manifest, broker_snapshot_baseline, derived_for, is_anchored,
  against_cache, resolve_at, resolve_baseline,
}
use utm_curs_i_orar.Publisher.Upstream.Fetching.{Probes, IsScratch}

-- The cache of bodies, or a body in it.
abbrev pub IsDisposable : LocalPath → Type 0
IsDisposable cache_dir = Unit
IsDisposable (cache_path url) = Unit
IsDisposable (run_temp_path id) = Unit
IsDisposable last_run_file = ⊥
IsDisposable operation_file = ⊥
IsDisposable page_file = ⊥
IsDisposable run_dir = ⊥

-- The broker is only read, the source is asked for official documents, and only bodies and their
-- cache are written or removed.
abbrev pub Harmless : Platform → History → Call → Type 0
Harmless p h (get url etag modified) =
    (url ≡ canonical_page_api_url) ⊎ (is_official_timetable_pdf_url p url ≡ true)
Harmless p h (json r) = r.method ≡ get_method
Harmless p h (upload u) = ⊥
Harmless p h (read_file path) = Unit
Harmless p h (write_file path contents) = IsDisposable path
Harmless p h (remove path) = IsDisposable path
Harmless p h clock = Unit
Harmless p h new_operation_id = ⊥

scratch-IsDisposable : (path : LocalPath) → IsScratch path → IsDisposable path
scratch-IsDisposable cache_dir e = tt
scratch-IsDisposable (cache_path url) e = tt
scratch-IsDisposable (run_temp_path id) e = tt
scratch-IsDisposable last_run_file e = e
scratch-IsDisposable operation_file e = e
scratch-IsDisposable page_file e = e
scratch-IsDisposable run_dir e = e

module _ (p : Platform) where
  pub Probes-Harmless : (h : History) (c : Call) → Probes p h c → Harmless p h c
  Probes-Harmless h (get url etag modified) q = q
  Probes-Harmless h (json r) q = absurd q
  Probes-Harmless h (upload u) q = q
  Probes-Harmless h (read_file path) q = tt
  Probes-Harmless h (write_file path contents) q = scratch-IsDisposable path q
  Probes-Harmless h (remove path) q = scratch-IsDisposable path q
  Probes-Harmless h clock q = tt
  Probes-Harmless h new_operation_id q = q

module _ (p : Platform) (config : PublisherConfig) where
  abbrev pub Harmlessly : {A : Type 0} → History → Act A → Type 0
  Harmlessly h m = Ensures (Harmless p) Anything h m

  pub read_current-Harmless : (h : History) → Harmlessly h (read_current_pointer p config)
  unfolding read_current_pointer
  read_current-Harmless h = at_request (get_request p config (current_path p config)) _ refl

  read_manifest-Harmless : (h : History) (id : Text) → Harmlessly h (read_manifest p config id)
  unfolding read_manifest
  read_manifest-Harmless h id =
      at_if (not (is_snapshot_id id)) (λ bad. at_fail tt)
        (λ good. at_request (get_request p config (manifest_path p config id)) _ refl)

  read_page-Harmless : (h : History) (id : Text) → Harmlessly h (read_snapshot_page_api p config id)
  unfolding read_snapshot_page_api
  read_page-Harmless h id =
      at_if (not (is_snapshot_id id)) (λ bad. at_fail tt)
        (λ good. at_request (get_request p config (page_path p config id)) _ refl)

  with_pdfs-Harmless :
      (id : Text) (manifest : ManifestView) (pdfs : Option (List BaselinePdf)) (h : History)
      → Harmlessly h (baseline_with_pdfs p config id manifest pdfs)
  unfolding baseline_with_pdfs
  with_pdfs-Harmless id manifest none h = at_done tt
  with_pdfs-Harmless id manifest (some pdfs) h =
      at_then _ (read_page-Harmless h id) (λ h' page. at_done tt)

  with_manifest-Harmless :
      (id : Text) (manifest : Option ManifestView) (h : History)
      → Harmlessly h (baseline_with_manifest p config id manifest)
  unfolding baseline_with_manifest
  with_manifest-Harmless id none h = at_done tt
  with_manifest-Harmless id (some manifest) h =
      at_if (length manifest.files == 0) (λ e. at_done tt) (λ e. with_pdfs-Harmless id manifest _ h)

  pub snapshot-Harmless :
      (id : Text) (h : History) → Harmlessly h (broker_snapshot_baseline p config id)
  unfolding broker_snapshot_baseline
  snapshot-Harmless id h =
      at_then _ (read_manifest-Harmless h id) (λ h' m. with_manifest-Harmless id m h')

  derived-Harmless : (id : Text) (h : History) → Harmlessly h (derived_for p config id)
  unfolding derived_for
  derived-Harmless id h = at_then _ (snapshot-Harmless id h) (λ h' d. at_done tt)

  against-Harmless :
      (id : Text) (last : Option LastRunState) (h : History)
      → Harmlessly h (against_cache p config id last)
  unfolding against_cache
  against-Harmless id none h = derived-Harmless id h
  against-Harmless id (some last) h =
      at_if (is_anchored last id) (λ e. at_done tt) (λ e. derived-Harmless id h)

  resolve_at-Harmless :
      (current : Option CurrentPointerView) (h : History)
      → Harmlessly h (resolve_at p config current)
  unfolding resolve_at read_last_run ◌>>=◌
  resolve_at-Harmless none h = at_done tt
  resolve_at-Harmless (some current) h = at_ask tt (λ t. against-Harmless current.snapshot_id _ _)

  pub resolve_baseline-Harmless : (h : History) → Harmlessly h (resolve_baseline p config)
  unfolding resolve_baseline
  resolve_baseline-Harmless h =
      at_then _ (read_current-Harmless h) (λ h' current. resolve_at-Harmless current h')

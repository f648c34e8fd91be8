-- ===== src/Publisher/Baseline.antt =====
-- tools/md-publisher/src/baseline.ts: what a run may compare the official page with.
use utm_curs_i_orar.Prelude.{
  Bool, true, false, ◌&&◌, Option, none, some, List, [], ◌∷◌, ltb, ◌==◌, length, if◌then◌else◌,
}
use utm_curs_i_orar.Text.{Text, codes, text_eq, option_eq}
use utm_curs_i_orar.Worker.Types.{Json, arr, nil, cons}
use utm_curs_i_orar.Worker.Instants.{is_wp_gmt}
use utm_curs_i_orar.Worker.Pointer.{field_of, as_fields}
use utm_curs_i_orar.Worker.Platform.{Platform}
use utm_curs_i_orar.Worker.Policy.{canonical_page_api_url}
use utm_curs_i_orar.Publisher.Calls.{Act, done, caught, ◌>>=◌, Outcome, returned, raised}
use utm_curs_i_orar.Publisher.Types.{
  PublisherConfig, BaselinePdf, LastRunState, CurrentPointerView, broker_snapshot, local_cache,
  FreshnessBaseline, ResolvedBaseline, ManifestFileView, ManifestView,
}
use utm_curs_i_orar.Publisher.Broker.{text_or_none}
use utm_curs_i_orar.Publisher.Broker.Client.{
  read_current_pointer, read_manifest, read_snapshot_page_api,
}
use utm_curs_i_orar.Publisher.Store.{read_last_run, write_last_run, clear_last_run}

-- The first item of an array, or the value itself.
unfoldable pub first_item : Json → Option Json
first_item (arr nil) = none
first_item (arr (cons j js)) = some j
first_item j = some j

unfoldable pub gmt_or_none : Option Text → Option Text
gmt_or_none none = none
gmt_or_none (some t) = if is_wp_gmt t then some t else none

unfoldable pub modified_of : Option Json → Option Text
unfolding first_item gmt_or_none text_or_none
modified_of none = none
modified_of (some j) = elim (first_item j) [
  | none ↦ none
  | some item ↦ elim (as_fields item) [
    | none ↦ none
    | some f ↦ gmt_or_none (text_or_none (field_of (codes "modified_gmt") f))
  ]
]

-- The files of a manifest, if each has a digest.
unfoldable pub baseline_pdfs : List ManifestFileView → Option (List BaselinePdf)
baseline_pdfs [] = some []
baseline_pdfs (file ∷ files) = elim file.content_sha256 [
  | none ↦ none
  | some sha256 ↦ elim (baseline_pdfs files) [
    | none ↦ none
    | some pdfs ↦ some (
        record {
          source_url = file.source_url;
          etag = file.publisher_observed_etag;
          last_modified = file.publisher_observed_last_modified;
          sha256 = sha256;
        }
        ∷ pdfs)
  ]
]

unfoldable pub baseline_from_cache : LastRunState → FreshnessBaseline
baseline_from_cache last = record {
  origin = local_cache;
  page_api_url = last.page_api_url;
  broker_snapshot_id = last.broker_snapshot_id;
  page_api_sha256 = last.page_api_sha256;
  page_etag = last.page_etag;
  page_last_modified = last.page_last_modified;
  page_modified_gmt = last.page_modified_gmt;
  pdfs = last.pdfs;
}

unfoldable pub last_run_from : FreshnessBaseline → Text → Text → LastRunState
last_run_from b outcome completed_at = record {
  page_api_url = b.page_api_url;
  broker_snapshot_id = b.broker_snapshot_id;
  page_etag = b.page_etag;
  page_last_modified = b.page_last_modified;
  page_api_sha256 = b.page_api_sha256;
  page_modified_gmt = b.page_modified_gmt;
  pdfs = b.pdfs;
  outcome = outcome;
  completed_at = completed_at;
}

-- Whether the local record describes the very snapshot that the broker serves.
unfoldable pub is_anchored : LastRunState → Text → Bool
is_anchored last id =
    option_eq last.page_api_url canonical_page_api_url
    && text_eq last.broker_snapshot_id id
    && ltb 0 (length last.pdfs)

module _ (p : Platform) (config : PublisherConfig) where
  -- `pageModifiedGmtOf`
  unfoldable pub page_modified_gmt_of : Text → Option Text
  unfolding modified_of
  page_modified_gmt_of bytes = modified_of (p.json_parse (p.decode bytes))

  unfoldable pub baseline_with_page :
      Text → ManifestView → List BaselinePdf → Option Text → Option FreshnessBaseline
  unfolding page_modified_gmt_of
  baseline_with_page id manifest pdfs none = none
  baseline_with_page id manifest pdfs (some page) = some (record {
    origin = broker_snapshot;
    page_api_url = manifest.page_api_url;
    broker_snapshot_id = id;
    page_api_sha256 = p.sha256_hex page;
    page_etag = none;
    page_last_modified = none;
    page_modified_gmt = elim manifest.page_modified_gmt [
      | some t ↦ some t
      | none ↦ page_modified_gmt_of page
    ];
    pdfs = pdfs;
  })

  unfoldable pub baseline_with_pdfs :
      Text → ManifestView → Option (List BaselinePdf) → Act (Option FreshnessBaseline)
  unfolding ◌>>=◌ baseline_with_page
  baseline_with_pdfs id manifest none = done none
  baseline_with_pdfs id manifest (some pdfs) = do
    page ← read_snapshot_page_api p config id
    done (baseline_with_page id manifest pdfs page)

  unfoldable pub baseline_with_manifest :
      Text → Option ManifestView → Act (Option FreshnessBaseline)
  unfolding baseline_with_pdfs baseline_pdfs
  baseline_with_manifest id none = done none
  baseline_with_manifest id (some manifest) =
      if length manifest.files == 0
      then done none
      else baseline_with_pdfs id manifest (baseline_pdfs manifest.files)

  unfoldable pub broker_snapshot_baseline : Text → Act (Option FreshnessBaseline)
  unfolding ◌>>=◌ baseline_with_manifest
  broker_snapshot_baseline id = do
    manifest ← read_manifest p config id
    baseline_with_manifest id manifest

  unfoldable pub derived_for : Text → Act ResolvedBaseline
  unfolding ◌>>=◌ broker_snapshot_baseline
  derived_for id = do
    derived ← broker_snapshot_baseline id
    done (record { baseline = derived; current_snapshot_id = some id })

  unfoldable pub against_cache : Text → Option LastRunState → Act ResolvedBaseline
  unfolding derived_for is_anchored baseline_from_cache
  against_cache id none = derived_for id
  against_cache id (some last) =
      if is_anchored last id
      then done
          (record { baseline = some (baseline_from_cache last); current_snapshot_id = some id })
      else derived_for id

  unfoldable pub resolve_at : Option CurrentPointerView → Act ResolvedBaseline
  unfolding ◌>>=◌ against_cache
  resolve_at none = done (record { baseline = none; current_snapshot_id = none })
  resolve_at (some current) = do last ← read_last_run p; against_cache current.snapshot_id last

  unfoldable pub resolve_baseline : Act ResolvedBaseline
  unfolding ◌>>=◌ resolve_at
  resolve_baseline = do current ← read_current_pointer p config; resolve_at current

-- `CacheRefresh`: whether the record was rebuilt, and the snapshot that the broker serves.
pub record CacheRefresh : Type 0 where
  pub refreshed : Bool
  pub broker_snapshot_id : Option Text

unfoldable pub invalidate : Option Text → Act CacheRefresh
unfolding ◌>>=◌
invalidate id = do u ← clear_last_run; done (record { refreshed = false; broker_snapshot_id = id })

unfoldable pub or_invalidate : Outcome CacheRefresh → Act CacheRefresh
unfolding invalidate
or_invalidate (returned r) = done r
or_invalidate (raised e) = invalidate none

module _ (p : Platform) (stringify : Json → Text) (config : PublisherConfig) where
  unfoldable pub record_derived :
      (outcome completed_at id : Text) → Option FreshnessBaseline → Act CacheRefresh
  unfolding ◌>>=◌ invalidate last_run_from
  record_derived outcome completed_at id none = invalidate (some id)
  record_derived outcome completed_at id (some derived) = do
    u ← write_last_run stringify (last_run_from derived outcome completed_at)
    done (record { refreshed = true; broker_snapshot_id = some id })

  unfoldable pub refresh_at :
      (outcome completed_at : Text) → Option CurrentPointerView → Act CacheRefresh
  unfolding ◌>>=◌ record_derived invalidate
  refresh_at outcome completed_at none = invalidate none
  refresh_at outcome completed_at (some current) = do
    derived ← broker_snapshot_baseline p config current.snapshot_id
    record_derived outcome completed_at current.snapshot_id derived

  unfoldable pub refresh : (outcome completed_at : Text) → Act CacheRefresh
  unfolding ◌>>=◌ refresh_at
  refresh outcome completed_at = do
    current ← read_current_pointer p config
    refresh_at outcome completed_at current

  -- `refreshCacheFromBroker`: whatever fails drops the record.
  unfoldable pub refresh_cache_from_broker : (outcome completed_at : Text) → Act CacheRefresh
  unfolding ◌>>=◌ caught refresh or_invalidate
  refresh_cache_from_broker outcome completed_at = do
    o ← caught (refresh outcome completed_at)
    or_invalidate o

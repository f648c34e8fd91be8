-- ===== src/Worker/Opening.antt =====
-- Stage 1 of worker/src/publisher.ts: the temporal guard, the cap on open publications, and
-- `openPublication`; with `readPageApiDocument` and `resolvePageApiUrl` of worker/src/page-api.ts.
pub mod Publication
pub mod Temporal
pub mod Plans
pub mod Resuming
pub mod Attempts
use utm_curs_i_orar.Prelude.{
  ℕ, zero, suc, ◌+◌, ◌-◌, ◌*◌, Bool, true, false, ◌&&◌, ◌||◌, not, Option, none, some, List, [],
  ◌∷◌, ◌++◌, ltb, leb, ◌==◌, if◌then◌else◌, length, drop, take, all, map,
}
use utm_curs_i_orar.Text.{
  Text, codes, text_eq, option_eq, Class, digit, lower_hex, variant, unit, times, matches, slice,
  is_digit,
}
use utm_curs_i_orar.Worker.Types.{
  Json, num, arr, obj, Items, cons, nil, Fields, SnapshotSource, PendingFile, PendingDescriptor,
  md_publisher, OperationRecord, SnapshotManifest, ParsedCurrentPointer, strict, legacy,
  OpenPublicationResult, created, resumed, refused, operation, descriptor, bytes,
}
use utm_curs_i_orar.Worker.Keys.{
  current_key, pending_prefix, operation_key, snapshot_page_api_key, snapshot_manifest_key,
  pending_descriptor_key,
}
use utm_curs_i_orar.Worker.Bucket.{Proc, done, list, read, write, Object, Listing, if_absent, ◌>>=◌}
use utm_curs_i_orar.Worker.Checked.{fine, fault}
use utm_curs_i_orar.Worker.Documents.{as_manifest}
use utm_curs_i_orar.Worker.Instants.{
  snapshot_id_instant, wp_gmt_instant, pending_max_age_ms, normalize_page_modified_gmt, number,
}
use utm_curs_i_orar.Worker.Platform.{Platform, Env}
use utm_curs_i_orar.Worker.Policy.{
  extract_official_pdf_urls, canonical_page_api_url, canonical_page_id, legacy_page_api_url,
  legacy_page_id, page_migration_modified_gmt, add_url,
}
use utm_curs_i_orar.Worker.Pointer.{
  parse_current_pointer, pointer_id, pointer_manifest, field_of, as_text,
}
use utm_curs_i_orar.Worker.Descriptors.{
  plan_snapshot_files, descriptor_file_error, plan_from, read_descriptor, read_operation,
  stored_file_ids,
}

-- UUID_V4_REGEX
unfoldable pub is_uuid_v4 : Text → Bool
unfolding matches
is_uuid_v4 t =
    matches
      (times 8 lower_hex (
        unit b'-'
        ∷ times 4 lower_hex (
            unit b'-'
            ∷ unit b'4'
            ∷ times 3 lower_hex
                (unit b'-' ∷ variant ∷ times 3 lower_hex (unit b'-' ∷ times 12 lower_hex [])))))
      t

-- SHA256_HEX_REGEX
unfoldable pub is_sha256_hex : Text → Bool
unfolding matches
is_sha256_hex t = matches (times 64 lower_hex []) t

dashed : Text → Text
dashed [] = []
dashed (c ∷ cs) = (if c == b':' || c == b'.' then b'-' else c) ∷ dashed cs

-- `generateSnapshotId`, from the ISO text of the instant and a random UUID.
unfoldable pub generate_snapshot_id : Text → Text → Text
unfolding dashed
generate_snapshot_id iso uuid = dashed iso ++ (codes "-" ++ take 8 uuid)

pub data TemporalVerdict : Type 0 where
  acceptable stale_page future_page : TemporalVerdict

unfoldable pub against_baseline : Option ℕ → Option ℕ → TemporalVerdict
against_baseline incoming none = acceptable
against_baseline none (some base) = stale_page
against_baseline (some t) (some base) = if ltb t base then stale_page else acceptable

unfoldable pub evaluate_page_timestamp : Option Text → Option Text → ℕ → ℕ → TemporalVerdict
unfolding wp_gmt_instant against_baseline
evaluate_page_timestamp incoming baseline now max_skew =
    let later = against_baseline (wp_gmt_instant incoming) (wp_gmt_instant baseline) in
    elim (wp_gmt_instant incoming) [
      | none ↦ later
      | some t ↦ if ltb (now + max_skew) t then future_page else later
    ]

abbrev hour_ms : ℕ
hour_ms = 60 * 60 * 1000

-- `/^(?:0|[1-9]\d{0,3})$/`
is_hours : Text → Bool
is_hours [] = false
is_hours (c ∷ cs) =
    is_digit c && leb (length cs) 3 && all is_digit cs && (not (c == b'0') || length cs == 0)

unfoldable pub max_page_future_skew_ms : Env → ℕ
unfolding is_hours number
max_page_future_skew_ms env = elim env.max_page_future_skew_hours [
  | none ↦ 26 * hour_ms
  | some raw ↦ if is_hours raw then number raw * hour_ms else 26 * hour_ms
]

pub record PageApiDocument : Type 0 where
  pub page_id : Option ℕ
  pub page_modified_gmt : Option Text
  pub rendered_html : Text

page_item : Json → Option Fields
page_item (obj fs) = some fs
page_item (arr (cons (obj fs) nil)) = some fs
page_item _ = none

rendered_of : Option Json → Option Text
unfolding field_of
rendered_of (some (obj fs)) = as_text (field_of (codes "rendered") fs)
rendered_of _ = none

positive_id : Option Json → Option ℕ
positive_id (some (num n)) = if leb n 9007199254740991 && ltb 0 n then some n else none
positive_id _ = none

unfoldable pub read_page_api_document : Option Json → Option PageApiDocument
unfolding page_item rendered_of positive_id field_of
read_page_api_document none = none
read_page_api_document (some payload) = elim (page_item payload) [
  | none ↦ none
  | some item ↦ elim (rendered_of (field_of (codes "content") item)) [
    | none ↦ none
    | some html ↦ some (record {
      page_id = positive_id (field_of (codes "id") item);
      page_modified_gmt = as_text (field_of (codes "modified_gmt") item);
      rendered_html = html;
    })
  ]
]

unfoldable pub resolve_page_api_url : Option Text → Option Text
resolve_page_api_url none = some canonical_page_api_url
resolve_page_api_url (some url) = if text_eq url canonical_page_api_url then some url else none

-- `replace(/\/$/, "")`
drop_last_slash : Text → Text
drop_last_slash [] = []
drop_last_slash (c ∷ cs) = elim cs [
  | [] ↦ if c == b'/' then [] else c ∷ []
  | d ∷ ds ↦ c ∷ drop_last_slash cs
]

-- The id in a listed prefix `pending/<id>/`.
unfoldable pub listed_id : Text → Text
unfolding drop_last_slash
listed_id prefix = drop_last_slash (drop (length pending_prefix) prefix)

add_recent : ℕ → List Text → List Text → List Text
unfolding snapshot_id_instant add_url listed_id
add_recent now ids [] = ids
add_recent now ids (prefix ∷ prefixes) =
    add_recent now
      (elim (snapshot_id_instant (listed_id prefix)) [
        | none ↦ ids
        | some t ↦ if ltb pending_max_age_ms (now - t) then ids else add_url ids (listed_id prefix)
      ])
      prefixes

unfoldable pub count_unclosed : List Text → ℕ → Proc ℕ
unfolding ◌>>=◌
count_unclosed [] open_count = done open_count
count_unclosed (id ∷ ids) open_count = do
  closed ← read (snapshot_manifest_key id)
  count_unclosed ids (elim closed [ none ↦ open_count + 1 | some _ ↦ open_count ])

abbrev pub open_scan_prefix_limit : ℕ
open_scan_prefix_limit = 32

abbrev pub max_open_publications : ℕ
max_open_publications = 8

module _ (p : Platform) where
  -- The pending ids under the dates of today and of yesterday, and how many have no manifest.
  unfoldable pub count_open_publications : ℕ → Proc ℕ
  unfolding ◌>>=◌ add_recent count_unclosed
  count_open_publications now = do
    today ←
        list (pending_prefix ++ slice 0 10 (p.to_iso now)) true open_scan_prefix_limit none
          (λ l. done l)
    yesterday ←
        list (pending_prefix ++ slice 0 10 (p.to_iso (now - 24 * hour_ms))) true
          open_scan_prefix_limit none (λ l. done l)
    count_unclosed (add_recent now (add_recent now [] today.prefixes) yesterday.prefixes) 0

  unfoldable pub resume_with :
      ℕ → OperationRecord → Option PendingDescriptor → Proc OpenPublicationResult
  unfolding ◌>>=◌ descriptor_file_error stored_file_ids plan_from
  resume_with now record' none = done (refused 410 (codes "operation_expired"))
  resume_with now record' (some d) =
      if text_eq d.operation_id record'.operation_id
        && text_eq d.page_api_sha256 record'.page_api_sha256
      then elim (descriptor_file_error p d) [
        | some e ↦ done (refused 409 (codes "operation_state_corrupt"))
        | none ↦ do ids ← stored_file_ids d; done (resumed (plan_from p now d ids))
      ]
      else done (refused 409 (codes "operation_state_corrupt"))

  unfoldable pub resume_operation : ℕ → OperationRecord → Text → Proc OpenPublicationResult
  unfolding ◌>>=◌ resume_with read_descriptor
  resume_operation now record' page_api_sha256 =
      if text_eq record'.page_api_sha256 page_api_sha256
      then (do d ← read_descriptor record'.snapshot_id; resume_with now record' d)
      else done (refused 409 (codes "operation_payload_mismatch"))

-- ===== src/Worker/Opening/Publication.antt =====
-- `openPublication` of worker/src/publisher.ts, from the operation id to the descriptor.
use utm_curs_i_orar.Prelude.{
  ℕ, Bool, true, false, ◌&&◌, not, Option, none, some, List, [], ◌∷◌, leb, ◌==◌, if◌then◌else◌,
}
use utm_curs_i_orar.Text.{Text, codes, text_eq}
use utm_curs_i_orar.Worker.Types.{
  PendingFile, PendingDescriptor, md_publisher, OperationRecord, SnapshotManifest,
  ParsedCurrentPointer, strict, legacy, OpenPublicationResult, created, refused, operation,
  descriptor, bytes,
}
use utm_curs_i_orar.Worker.Keys.{
  current_key, operation_key, snapshot_page_api_key, pending_descriptor_key,
}
use utm_curs_i_orar.Worker.Bucket.{Proc, done, read, write, Object, if_absent, ◌>>=◌}
use utm_curs_i_orar.Worker.Checked.{fine, fault}
use utm_curs_i_orar.Worker.Documents.{as_manifest}
use utm_curs_i_orar.Worker.Instants.{normalize_page_modified_gmt}
use utm_curs_i_orar.Worker.Platform.{Platform, Env}
use utm_curs_i_orar.Worker.Policy.{
  extract_official_pdf_urls, canonical_page_api_url, canonical_page_id, legacy_page_api_url,
  legacy_page_id, page_migration_modified_gmt,
}
use utm_curs_i_orar.Worker.Pointer.{parse_current_pointer, pointer_id, pointer_manifest}
use utm_curs_i_orar.Worker.Descriptors.{plan_snapshot_files, plan_from, read_operation}
use utm_curs_i_orar.Worker.Opening.{
  PageApiDocument, acceptable, stale_page, future_page, evaluate_page_timestamp,
  max_page_future_skew_ms, read_page_api_document, resolve_page_api_url, count_open_publications,
  max_open_publications, resume_operation, generate_snapshot_id, is_uuid_v4, is_sha256_hex,
}

pub record OpenPublicationInput : Type 0 where
  pub operation_id : Text
  pub page_api_sha256 : Text
  pub page_bytes : Text
  pub now : ℕ
  -- The random UUID that `generateSnapshotId` draws.
  pub random : Text

-- What the checks of the page and of the current pointer leave for the planning.
pub record Opening : Type 0 where
  pub page_api_url : Text
  pub document : PageApiDocument
  pub modified : Option Text
  pub pdf_urls : List Text
  pub current_etag : Option Text
  pub previous : Option ParsedCurrentPointer

unfoldable pub own_manifest : ParsedCurrentPointer → Option Object → Option SnapshotManifest
own_manifest pointer none = none
own_manifest pointer (some o) = elim (as_manifest o.body) [
  | none ↦ none
  | some m ↦ if text_eq m.snapshot_id (pointer_id pointer) then some m else none
]

unfoldable pub load_previous_manifest : ParsedCurrentPointer → Proc (Option SnapshotManifest)
unfolding ◌>>=◌ own_manifest
load_previous_manifest pointer = do
  o ← read (pointer_manifest pointer)
  done (own_manifest pointer o)

pointer_modified : ParsedCurrentPointer → Option Text
pointer_modified (strict c) = c.page_modified_gmt
pointer_modified (legacy c) = none

-- `pointer.page_id === undefined || pointer.page_id === LEGACY_PAGE_ID`
has_legacy_page : ParsedCurrentPointer → Bool
has_legacy_page (strict c) = elim c.page_id [ none ↦ false | some n ↦ n == legacy_page_id ]
has_legacy_page (legacy c) = true

unfoldable pub id_is : Option ℕ → ℕ → Bool
id_is none n = false
id_is (some m) n = m == n

-- The floor for the incoming stamp, with the one reviewed migration of the source page.
unfoldable pub baseline_of : Opening → ParsedCurrentPointer → Option SnapshotManifest → Option Text
unfolding pointer_modified has_legacy_page id_is
baseline_of opening pointer none = pointer_modified pointer
baseline_of opening pointer (some m) =
    if text_eq m.source.page_api_url legacy_page_api_url
      && id_is m.source.page_id legacy_page_id
      && has_legacy_page pointer
      && text_eq opening.page_api_url canonical_page_api_url
      && id_is opening.document.page_id canonical_page_id
    then some page_migration_modified_gmt
    else elim (pointer_modified pointer) [ none ↦ m.source.page_modified_gmt | some t ↦ some t ]

unfoldable pub load_baseline : Opening → Proc (Option Text)
unfolding ◌>>=◌ baseline_of load_previous_manifest
load_baseline opening = elim opening.previous [
  | none ↦ done none
  | some pointer ↦ do m ← load_previous_manifest pointer; done (baseline_of opening pointer m)
]

abbrev previous_id : Option ParsedCurrentPointer → Option Text
previous_id none = none
previous_id (some pointer) = some (pointer_id pointer)

abbrev pub refuse : ℕ → Text → Proc OpenPublicationResult
refuse status code = done (refused status code)

module _ (p : Platform) (env : Env) (input : OpenPublicationInput) where
  abbrev pub created_at : Text
  created_at = p.to_iso input.now

  abbrev pub new_id : Text
  new_id = generate_snapshot_id created_at input.random

  abbrev pub new_operation : OperationRecord
  new_operation = record {
    operation_id = input.operation_id;
    snapshot_id = new_id;
    page_api_sha256 = input.page_api_sha256;
    created_at = created_at;
  }

  unfoldable pub new_descriptor : Opening → List PendingFile → PendingDescriptor
  unfolding generate_snapshot_id
  new_descriptor opening files = record {
    snapshot_id = new_id;
    previous_snapshot_id = previous_id opening.previous;
    created_at = created_at;
    current_etag = opening.current_etag;
    operation_id = input.operation_id;
    page_api_sha256 = input.page_api_sha256;
    origin = md_publisher;
    source = record {
      page_api_url = opening.page_api_url;
      page_id = opening.document.page_id;
      page_modified_gmt = opening.modified;
      retrieved_at = created_at;
      etag = none;
      last_modified = none;
    };
    files = files;
  }

  -- The three writes: the operation record first, so that the attempt's snapshot is durable.
  unfoldable pub write_publication : Opening → List PendingFile → Proc OpenPublicationResult
  unfolding ◌>>=◌ resume_operation read_operation plan_from
  write_publication opening files = do
    recorded ← write (operation_key input.operation_id) (operation new_operation) if_absent []
    elim recorded [
      | none ↦ do
        raced ← read_operation input.operation_id
        elim raced [
          | none ↦ refuse 409 (codes "operation_state_corrupt")
          | some r ↦ resume_operation p input.now r input.page_api_sha256
        ]
      | some _ ↦ do
        page ← write (snapshot_page_api_key new_id) (bytes input.page_bytes) if_absent (
            (codes "snapshot_id", new_id)
            ∷ (codes "operation_id", input.operation_id)
            ∷ (codes "page_api_sha256", input.page_api_sha256)
            ∷ [])
        elim page [
          | none ↦ refuse 409 (codes "snapshot_collision")
          | some _ ↦ do
            described ←
                write (pending_descriptor_key new_id) (descriptor (new_descriptor opening files))
                  if_absent []
            elim described [
              | none ↦ refuse 409 (codes "snapshot_collision")
              | some _ ↦ done (created (plan_from p input.now (new_descriptor opening files) []))
            ]
        ]
    ]

  -- The cap and the plan, once the page's stamp is acceptable.
  unfoldable pub plan_capped : Opening → ℕ → Proc OpenPublicationResult
  unfolding write_publication plan_snapshot_files
  plan_capped opening open_count =
      if leb max_open_publications open_count
      then refuse 429 (codes "too_many_open_publications")
      else elim (plan_snapshot_files p new_id opening.pdf_urls) [
        | none ↦ refuse 400 (codes "unplannable_catalogue")
        | some files ↦ write_publication opening files
      ]

  unfoldable pub plan_publication : Opening → Proc OpenPublicationResult
  unfolding ◌>>=◌ plan_capped count_open_publications
  plan_publication opening = do
    open_count ← count_open_publications p input.now
    plan_capped opening open_count

  unfoldable pub judge_page : Opening → Proc OpenPublicationResult
  unfolding ◌>>=◌ plan_publication load_baseline evaluate_page_timestamp max_page_future_skew_ms
  judge_page opening = do
    baseline ← load_baseline opening
    elim (evaluate_page_timestamp opening.modified baseline input.now
        (max_page_future_skew_ms env)) [
          | acceptable ↦ plan_publication opening
          | stale_page ↦ refuse 409 (codes "stale_page")
          | future_page ↦ refuse 400 (codes "future_page")
        ]

  unfoldable pub opening_of :
      Text → PageApiDocument → List Text → Option Text → Option ParsedCurrentPointer → Opening
  opening_of url document urls etag previous = record {
    page_api_url = url;
    document = document;
    modified = normalize_page_modified_gmt document.page_modified_gmt;
    pdf_urls = urls;
    current_etag = etag;
    previous = previous;
  }

  -- The current pointer is the baseline; one that cannot be read refuses everything.
  unfoldable pub against_current : Text → PageApiDocument → List Text → Proc OpenPublicationResult
  unfolding ◌>>=◌ judge_page opening_of parse_current_pointer
  against_current url document urls = do
    current ← read current_key
    elim current [
      | none ↦ judge_page (opening_of url document urls none none)
      | some o ↦ elim (parse_current_pointer p.json_parse (p.text_of o.body)) [
        | fault _ ↦ refuse 503 (codes "broker_state_unreadable")
        | fine pointer ↦ judge_page (opening_of url document urls (some o.etag) (some pointer))
      ]
    ]

  unfoldable pub check_catalogue : Text → PageApiDocument → Proc OpenPublicationResult
  unfolding against_current extract_official_pdf_urls id_is
  check_catalogue url document =
      if id_is document.page_id canonical_page_id
      then elim (extract_official_pdf_urls p document.rendered_html) [
        | [] ↦ refuse 400 (codes "no_official_pdfs")
        | u ∷ us ↦ against_current url document (u ∷ us)
      ]
      else refuse 400 (codes "invalid_page_identity")

  unfoldable pub open_new : Proc OpenPublicationResult
  unfolding check_catalogue resolve_page_api_url read_page_api_document
  open_new = elim (resolve_page_api_url env.fcim_page_api_url) [
    | none ↦ refuse 500 (codes "broker_misconfigured")
    | some url ↦ elim (read_page_api_document (p.json_parse (p.decode input.page_bytes))) [
      | none ↦ refuse 400 (codes "invalid_page_payload")
      | some document ↦ check_catalogue url document
    ]
  ]

  unfoldable pub open_publication : Proc OpenPublicationResult
  unfolding ◌>>=◌ open_new resume_operation read_operation is_uuid_v4 is_sha256_hex
  open_publication =
      if not (is_uuid_v4 input.operation_id)
      then refuse 400 (codes "invalid_operation_id")
      else if not (is_sha256_hex input.page_api_sha256)
      then refuse 400 (codes "invalid_page_hash")
      else do
        existing ← read_operation input.operation_id
        elim existing [
          | some r ↦ resume_operation p input.now r input.page_api_sha256
          | none ↦ open_new
        ]

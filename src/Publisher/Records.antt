-- ===== src/Publisher/Records.antt =====
-- tools/md-publisher/src/state.ts: the records that the publisher keeps below its state directory,
-- as the JSON that is written and as what is read back. A field that the reader does not check is
-- read as a text, or as missing.
pub mod Laws
use utm_curs_i_orar.Prelude.{
  ℕ, Bool, true, false, not, Option, none, some, List, [], ◌∷◌, ◌==◌, length, if◌then◌else◌,
}
use utm_curs_i_orar.Text.{Text, codes, text_eq}
use utm_curs_i_orar.Worker.Types.{
  Json, null, num, str, arr, obj, Items, nil, cons, Fields, end, field,
}
use utm_curs_i_orar.Worker.Pointer.{field_of, as_fields}
use utm_curs_i_orar.Worker.Platform.{Platform}
use utm_curs_i_orar.Publisher.Types.{BaselinePdf, LastRunState, OperationState}
use utm_curs_i_orar.Publisher.Broker.{text_or_none, string_or_null, or_empty, items_of}

-- The first of a chain of values that is missing ends it.
infixl 5 ◌>>=◌
abbrev ◌>>=◌ : {A B : Type 0} → Option A → (A → Option B) → Option B
none >>= f = none
some a >>= f = f a

unfoldable pub nullable : Option Text → Json
nullable none = null
nullable (some t) = str t

unfoldable pub pdf_json : BaselinePdf → Json
unfolding nullable
pdf_json pdf = obj (
    field (codes "source_url") (str pdf.source_url) (
      field (codes "etag") (nullable pdf.etag) (
        field (codes "last_modified") (nullable pdf.last_modified)
          (field (codes "sha256") (str pdf.sha256) end))))

unfoldable pub pdfs_json : List BaselinePdf → Items
unfolding pdf_json
pdfs_json [] = nil
pdfs_json (pdf ∷ pdfs) = cons (pdf_json pdf) (pdfs_json pdfs)

unfoldable pub last_run_json : LastRunState → Json
unfolding nullable pdfs_json
last_run_json s = obj (
    field (codes "schema_version") (num 2) (
      field (codes "page_api_url") (nullable s.page_api_url) (
        field (codes "broker_snapshot_id") (str s.broker_snapshot_id) (
          field (codes "page_etag") (nullable s.page_etag) (
            field (codes "page_last_modified") (nullable s.page_last_modified) (
              field (codes "page_api_sha256") (str s.page_api_sha256) (
                field (codes "page_modified_gmt") (nullable s.page_modified_gmt) (
                  field (codes "pdfs") (arr (pdfs_json s.pdfs)) (
                    field (codes "outcome") (str s.outcome)
                      (field (codes "completed_at") (str s.completed_at) end))))))))))

unfoldable pub is_number : ℕ → Option Json → Bool
is_number n (some (num m)) = m == n
is_number n _ = false

unfoldable pub pdf_from : Option Fields → Option BaselinePdf
unfolding text_or_none
pdf_from none = none
pdf_from (some f) = do
  url ← text_or_none (field_of (codes "source_url") f)
  sha256 ← text_or_none (field_of (codes "sha256") f)
  some (record {
    source_url = url;
    etag = text_or_none (field_of (codes "etag") f);
    last_modified = text_or_none (field_of (codes "last_modified") f);
    sha256 = sha256;
  })

unfoldable pub pdfs_from : Items → Option (List BaselinePdf)
unfolding pdf_from
pdfs_from nil = some []
pdfs_from (cons j js) =
    let rest = pdfs_from js in do pdf ← pdf_from (as_fields j); pdfs ← rest; some (pdf ∷ pdfs)

-- What is read back, if it is anchored to a snapshot.
unfoldable pub last_run_from_fields : Fields → Option LastRunState
unfolding text_or_none string_or_null or_empty items_of pdfs_from is_number
last_run_from_fields f =
    if not (is_number 2 (field_of (codes "schema_version") f)) then none else do
      sha256 ← text_or_none (field_of (codes "page_api_sha256") f)
      id ← string_or_null (field_of (codes "broker_snapshot_id") f)
      items ← items_of (field_of (codes "pdfs") f)
      pdfs ← pdfs_from items
      some (record {
        page_api_url = text_or_none (field_of (codes "page_api_url") f);
        broker_snapshot_id = id;
        page_etag = text_or_none (field_of (codes "page_etag") f);
        page_last_modified = text_or_none (field_of (codes "page_last_modified") f);
        page_api_sha256 = sha256;
        page_modified_gmt = text_or_none (field_of (codes "page_modified_gmt") f);
        pdfs = pdfs;
        outcome = or_empty (text_or_none (field_of (codes "outcome") f));
        completed_at = or_empty (text_or_none (field_of (codes "completed_at") f));
      })

unfoldable pub last_run_of : Option Json → Option LastRunState
unfolding last_run_from_fields
last_run_of none = none
last_run_of (some j) = elim (as_fields j) [ none ↦ none | some f ↦ last_run_from_fields f ]

unfoldable pub operation_json : OperationState → Json
unfolding nullable
operation_json s = obj (
    field (codes "schema_version") (num 1) (
      field (codes "operation_id") (str s.operation_id) (
        field (codes "page_api_sha256") (str s.page_api_sha256) (
          field (codes "snapshot_id") (nullable s.snapshot_id)
            (field (codes "started_at") (str s.started_at) end)))))

unfoldable pub operation_from_fields : Fields → Option OperationState
unfolding text_or_none or_empty is_number
operation_from_fields f =
    if not (is_number 1 (field_of (codes "schema_version") f)) then none else do
      id ← text_or_none (field_of (codes "operation_id") f)
      sha256 ← text_or_none (field_of (codes "page_api_sha256") f)
      some (record {
        operation_id = id;
        page_api_sha256 = sha256;
        snapshot_id = text_or_none (field_of (codes "snapshot_id") f);
        started_at = or_empty (text_or_none (field_of (codes "started_at") f));
      })

unfoldable pub operation_of : Option Json → Option OperationState
unfolding operation_from_fields
operation_of none = none
operation_of (some j) = elim (as_fields j) [ none ↦ none | some f ↦ operation_from_fields f ]

module _ (p : Platform) where
  unfoldable pub last_run_text : Option Text → Option LastRunState
  unfolding last_run_of
  last_run_text none = none
  last_run_text (some t) = last_run_of (p.json_parse t)

  unfoldable pub operation_text : Option Text → Option OperationState
  unfolding operation_of
  operation_text none = none
  operation_text (some t) = operation_of (p.json_parse t)

  -- The saved page must be the one that the attempt was opened with.
  unfoldable pub resumable : OperationState → Option Text → Option (OperationState × Text)
  resumable s none = none
  resumable s (some bytes) =
      if not (text_eq (p.sha256_hex bytes) s.page_api_sha256) then none else some (s, bytes)

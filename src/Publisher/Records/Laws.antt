-- ===== src/Publisher/Records/Laws.antt =====
-- What is written to the state directory is what is read back (tools/md-publisher/src/state.ts).
use utm_curs_i_orar.Prelude.{
  arith, ◌≡◌, ◌≢◌, refl, false, Option, none, some, List, [], ◌∷◌, ◌==◌, length,
}
use utm_curs_i_orar.Text.{Text, text_eq}
use utm_curs_i_orar.Worker.Types.{Json}
use utm_curs_i_orar.Worker.Pointer.{field_of}
use utm_curs_i_orar.Worker.Platform.{Platform}
use utm_curs_i_orar.Publisher.Types.{BaselinePdf, LastRunState, OperationState}
use utm_curs_i_orar.Publisher.Broker.{text_or_none, string_or_null, or_empty, items_of}
use utm_curs_i_orar.Publisher.Records.{
  nullable, pdf_json, pdfs_json, last_run_json, is_number, pdf_from, pdfs_from,
  last_run_from_fields, last_run_of, last_run_text, operation_json, operation_from_fields,
  operation_of, operation_text,
}

text-nullable : (t : Option Text) → text_or_none (some (nullable t)) ≡ t
unfolding nullable text_or_none
text-nullable none = refl
text-nullable (some t) = refl

pdfs_back : (pdfs : List BaselinePdf) → pdfs_from (pdfs_json pdfs) ≡ some pdfs
unfolding pdfs_from pdfs_json pdf_from pdf_json field_of text_eq text_or_none
pdfs_back [] = refl
pdfs_back (pdf ∷ pdfs) =
    rw (pdfs_back pdfs, text-nullable pdf.etag, text-nullable pdf.last_modified) refl

not_empty : (t : Text) → t ≢ [] → (length t == 0) ≡ false
not_empty [] h = absurd (h refl)
not_empty (x ∷ xs) h = ground arith

last_run_back :
    (s : LastRunState) → s.broker_snapshot_id ≢ [] → last_run_of (some (last_run_json s)) ≡ some s
unfolding last_run_of last_run_json last_run_from_fields field_of text_eq is_number items_of
    text_or_none string_or_null or_empty
last_run_back s named =
    rw
      (
        not_empty s.broker_snapshot_id named,
        pdfs_back s.pdfs,
        text-nullable s.page_api_url,
        text-nullable s.page_etag,
        text-nullable s.page_last_modified,
        text-nullable s.page_modified_gmt,
      )
      refl

operation_back : (s : OperationState) → operation_of (some (operation_json s)) ≡ some s
unfolding operation_of operation_json operation_from_fields field_of text_eq is_number text_or_none
    or_empty
operation_back s = rw (text-nullable s.snapshot_id) refl

module _ (p : Platform) (stringify : Json → Text) where
  -- When JSON.parse reads what JSON.stringify has written, the record of the last run comes back
  -- as it was written if it names a snapshot, and the record of an attempt always does.
  pub last_run_text-stringify :
      (s : LastRunState) (o : OperationState)
      → p.json_parse (stringify (last_run_json s)) ≡ some (last_run_json s)
      → p.json_parse (stringify (operation_json o)) ≡ some (operation_json o)
      → s.broker_snapshot_id ≢ []
      → (last_run_text p (some (stringify (last_run_json s))) ≡ some s)
        × (operation_text p (some (stringify (operation_json o))) ≡ some o)
  unfolding last_run_text operation_text
  last_run_text-stringify s o parses parses_operation named =
      (rw parses (last_run_back s named), rw parses_operation (operation_back o))

-- ===== src/Publisher/Detect.antt =====
-- Change detection, in tools/md-publisher/src/publish.ts: the official page and its PDFs against a
-- baseline. A `Map` is a list of entries, the latest first.
pub mod Checking
pub mod Unchanged
use utm_curs_i_orar.Prelude.{
  ℕ, Bool, true, false, ◌&&◌, ◌||◌, not, Option, none, some, List, [], ◌∷◌, ◌==◌, length,
  if◌then◌else◌,
}
use utm_curs_i_orar.Text.{Text, codes, text_eq, option_eq}
use utm_curs_i_orar.Worker.Types.{Json, arr, obj, nil, cons, Fields}
use utm_curs_i_orar.Worker.Pointer.{field_of, as_fields}
use utm_curs_i_orar.Worker.Platform.{Platform}
use utm_curs_i_orar.Worker.Policy.{
  canonical_page_api_url, canonical_page_id, contains, extract_official_pdf_urls,
}
use utm_curs_i_orar.Publisher.Calls.{
  Failure, other_error, Act, done, fail, ◌>>=◌, Outcome, returned, raised, cache_path,
}
use utm_curs_i_orar.Publisher.Types.{BaselinePdf, FreshnessBaseline}
use utm_curs_i_orar.Publisher.Broker.{and_then, lift, text_or_none}
use utm_curs_i_orar.Publisher.Records.{is_number}
use utm_curs_i_orar.Publisher.Upstream.{
  PageApiResult, fetch_page_api, non_empty, revalidate_pdf, RevalidateResult, DownloadedPdf,
  download_pdf,
}

abbrev pub Validators : Type 0
Validators = Option Text × Option Text

pub record DetectionOutcome : Type 0 where
  pub changed : Bool
  pub page_bytes : Text
  pub page_sha256 : Text
  pub page_etag : Option Text
  pub page_last_modified : Option Text
  pub downloaded : List (Text × DownloadedPdf)
  pub observed : List (Text × Validators)

-- What the loop over the baseline's PDFs has found so far.
pub record Seen : Type 0 where
  pub pdf_changed : Bool
  pub downloaded : List (Text × DownloadedPdf)
  pub observed : List (Text × Validators)

abbrev pub nothing_seen : Seen
nothing_seen = record { pdf_changed = false; downloaded = []; observed = [] }

-- A validator belongs to the endpoint that produced it.
unfoldable pub scoped : Option FreshnessBaseline → (FreshnessBaseline → Option Text) → Option Text
scoped none validator = none
scoped (some b) validator =
    if option_eq b.page_api_url canonical_page_api_url then validator b else none

-- The single document of a page payload.
unfoldable pub single_document : Json → Option Json
single_document (arr nil) = none
single_document (arr (cons j nil)) = some j
single_document (arr (cons j (cons k js))) = none
single_document j = some j

unfoldable pub document_fields : Option Json → Option Fields
unfolding single_document
document_fields none = none
document_fields (some j) = elim (single_document j) [ none ↦ none | some d ↦ as_fields d ]

unfoldable pub rendered_of : Fields → Option Text
unfolding text_or_none
rendered_of f = elim (field_of (codes "content") f) [
  | none ↦ none
  | some content ↦ elim (as_fields content) [
    | none ↦ none
    | some inner ↦ text_or_none (field_of (codes "rendered") inner)
  ]
]

abbrev not_canonical : {A : Type 0} → Outcome A
not_canonical = raised (other_error (codes "not canonical"))

unfoldable pub check_pdf_revalidated : Text → Seen → RevalidateResult → Seen
check_pdf_revalidated url s r = record {
  pdf_changed = s.pdf_changed || r.changed;
  downloaded = s.downloaded;
  observed = (url, (r.etag, r.last_modified)) ∷ s.observed;
}

unfoldable pub check_pdf_downloaded : BaselinePdf → Seen → DownloadedPdf → Seen
check_pdf_downloaded pdf s body = record {
  pdf_changed = s.pdf_changed || not (text_eq body.sha256 pdf.sha256);
  downloaded = (pdf.source_url, body) ∷ s.downloaded;
  observed = (pdf.source_url, (body.etag, body.last_modified)) ∷ s.observed;
}

abbrev pub is_some : {A : Type 0} → Option A → Bool
is_some none = false
is_some (some a) = true

-- The page no longer lists the PDF.
unfoldable pub was_removed : Option (List Text) → BaselinePdf → Bool
was_removed none pdf = false
was_removed (some urls) pdf = not (contains pdf.source_url urls)

module _ (p : Platform) where
  unfoldable pub urls_of : Option Text → Outcome (List Text)
  urls_of none = not_canonical
  urls_of (some rendered) =
      if length (extract_official_pdf_urls p rendered) == 0
      then not_canonical
      else returned (extract_official_pdf_urls p rendered)

  -- The inventory of a changed page.
  unfoldable pub inventory_of : Text → Outcome (List Text)
  unfolding document_fields rendered_of urls_of is_number
  inventory_of bytes = elim (document_fields (p.json_parse (p.decode bytes))) [
    | none ↦ not_canonical
    | some f ↦
        if not (is_number canonical_page_id (field_of (codes "id") f))
        then not_canonical
        else urls_of (rendered_of f)
  ]

  unfoldable pub has_page_changed : FreshnessBaseline → PageApiResult → Bool
  has_page_changed b page = elim page.bytes [
    | none ↦ false
    | some bytes ↦ not (text_eq (p.sha256_hex bytes) b.page_api_sha256)
  ]

  unfoldable pub current_urls : FreshnessBaseline → PageApiResult → Outcome (Option (List Text))
  unfolding inventory_of
  current_urls b page = elim page.bytes [
    | none ↦ returned none
    | some bytes ↦
        if text_eq (p.sha256_hex bytes) b.page_api_sha256
        then returned none
        else and_then (inventory_of bytes) (λ urls. returned (some urls))
  ]

  unfoldable pub check_pdf : BaselinePdf → Seen → Act Seen
  unfolding ◌>>=◌ non_empty check_pdf_revalidated check_pdf_downloaded
  check_pdf pdf s =
      if is_some (non_empty pdf.etag) || is_some (non_empty pdf.last_modified)
      then (do
        r ← revalidate_pdf p pdf.source_url pdf.etag pdf.last_modified
        done (check_pdf_revalidated pdf.source_url s r))
      else (do
        body ← download_pdf p pdf.source_url (cache_path pdf.source_url)
        done (check_pdf_downloaded pdf s body))

  unfoldable pub check_pdfs : Option (List Text) → List BaselinePdf → Seen → Act Seen
  unfolding ◌>>=◌ check_pdf was_removed
  check_pdfs urls [] s = done s
  check_pdfs urls (pdf ∷ pdfs) s =
      if was_removed urls pdf
      then check_pdfs urls pdfs s
      else do seen ← check_pdf pdf s; check_pdfs urls pdfs seen

  unfoldable pub full_page : PageApiResult → Act (Text × PageApiResult)
  full_page page = elim page.bytes [
    | none ↦ fail (other_error (codes "304"))
    | some bytes ↦ done (bytes, page)
  ]

  unfoldable pub unconditional_page : Act (Text × PageApiResult)
  unfolding ◌>>=◌ full_page
  unconditional_page = do page ← fetch_page_api none none; full_page page

  -- A 304 is followed by an unconditional request.
  unfoldable pub page_in_full : PageApiResult → Act (Text × PageApiResult)
  unfolding unconditional_page
  page_in_full page = elim page.bytes [
    | none ↦ unconditional_page
    | some bytes ↦ done (bytes, page)
  ]

  unfoldable pub changed_with : Seen → Text × PageApiResult → DetectionOutcome
  changed_with s (bytes, page) = record {
    changed = true;
    page_bytes = bytes;
    page_sha256 = p.sha256_hex bytes;
    page_etag = page.etag;
    page_last_modified = page.last_modified;
    downloaded = s.downloaded;
    observed = s.observed;
  }

  unfoldable pub unchanged_with : FreshnessBaseline → PageApiResult → Seen → DetectionOutcome
  unchanged_with b page s = record {
    changed = false;
    page_bytes = elim page.bytes [ none ↦ [] | some bytes ↦ bytes ];
    page_sha256 = elim page.bytes [ none ↦ b.page_api_sha256 | some bytes ↦ p.sha256_hex bytes ];
    page_etag = page.etag;
    page_last_modified = page.last_modified;
    downloaded = s.downloaded;
    observed = s.observed;
  }

  unfoldable pub conclude : FreshnessBaseline → PageApiResult → Seen → Act DetectionOutcome
  unfolding ◌>>=◌ has_page_changed page_in_full changed_with unchanged_with
  conclude b page s =
      if has_page_changed b page || s.pdf_changed
      then (do full ← page_in_full page; done (changed_with s full))
      else done (unchanged_with b page s)

  unfoldable pub compare : Option FreshnessBaseline → PageApiResult → Act DetectionOutcome
  unfolding ◌>>=◌ page_in_full changed_with current_urls check_pdfs conclude
  compare none page = do full ← page_in_full page; done (changed_with nothing_seen full)
  compare (some b) page =
      if length b.pdfs == 0
      then (do full ← page_in_full page; done (changed_with nothing_seen full))
      else do
        urls ← lift (current_urls b page)
        s ← check_pdfs urls b.pdfs nothing_seen
        conclude b page s

  unfoldable pub detect_change : Option FreshnessBaseline → Act DetectionOutcome
  unfolding ◌>>=◌ compare scoped
  detect_change baseline = do
    page ←
        fetch_page_api (scoped baseline (λ b. b.page_etag))
          (scoped baseline (λ b. b.page_last_modified))
    compare baseline page

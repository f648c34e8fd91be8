-- ===== src/Publisher/Tests.antt =====
-- A concrete runtime, baseline and records, and the theorems at them.
use utm_curs_i_orar.Prelude.{
  true, ◌↔◌, length, take, ◌≤◌, ◌≡◌, ◌≢◌, refl, Option, none, some, [], ◌∷◌, if◌then◌else◌,
}
use utm_curs_i_orar.Text.{Text, codes, text_eq}
use utm_curs_i_orar.Worker.Types.{Json, obj, num, field}
use utm_curs_i_orar.Worker.Platform.{Platform}
use utm_curs_i_orar.Worker.Policy.{canonical_page_api_url}
use utm_curs_i_orar.Publisher.Calls.{Stream, returned}
use utm_curs_i_orar.Publisher.Upstream.{
  read_within, Receiving, receive_pdf, pdf_magic, max_pdf_bytes,
}
use utm_curs_i_orar.Publisher.Upstream.Limits.{joined, read_within_iff}
use utm_curs_i_orar.Publisher.Upstream.Signature.{receive_pdf-returned}
use utm_curs_i_orar.Publisher.Calls.Rules.{Ensures}
use utm_curs_i_orar.Publisher.Types.{
  PublisherConfig, BaselinePdf, LastRunState, OperationState, FreshnessBaseline, broker_snapshot,
}
use utm_curs_i_orar.Publisher.Records.{last_run_json, last_run_text, operation_json, operation_text}
use utm_curs_i_orar.Publisher.Records.Laws.{last_run_text-stringify}
use utm_curs_i_orar.Publisher.Upstream.Fetching.{Probes}
use utm_curs_i_orar.Publisher.Detect.{detect_change}
use utm_curs_i_orar.Publisher.Detect.Unchanged.{Detects, detect_change-Ensures}
use utm_curs_i_orar.Publisher.Publish.{Host}
use utm_curs_i_orar.Publisher.Publish.Anchored.{Records}
use utm_curs_i_orar.Publisher.Check.Harmless.{Harmless}

abbrev snapshot : Text
snapshot = codes "2026-09-01T08-00-00-000Z-0a1b2c3d"

abbrev timetable : BaselinePdf
timetable = record {
  source_url = codes "https://fcim.utm.md/wp-content/uploads/sites/24/2026/09/orar-anul-1.pdf";
  etag = some (codes "v1");
  last_modified = none;
  sha256 = codes "aa";
}

abbrev last_run : LastRunState
last_run = record {
  page_api_url = some canonical_page_api_url;
  broker_snapshot_id = snapshot;
  page_etag = some (codes "p1");
  page_last_modified = none;
  page_api_sha256 = codes "bb";
  page_modified_gmt = none;
  pdfs = timetable ∷ [];
  outcome = codes "published";
  completed_at = codes "2026-09-01T08:00:10.000Z";
}

abbrev attempt : OperationState
attempt = record {
  operation_id = codes "op";
  page_api_sha256 = codes "bb";
  snapshot_id = some snapshot;
  started_at = codes "2026-09-01T08:00:00.000Z";
}

-- The text of the record, of the attempt, or of anything else.
abbrev spelled : Json → Text
spelled (obj (field name (num n) rest)) = n ∷ []
spelled _ = []

abbrev parsed : Text → Option Json
parsed t =
    if text_eq t (2 ∷ [])
    then some (last_run_json last_run)
    else if text_eq t (1 ∷ [])
    then some (operation_json attempt)
    else none

abbrev runtime : Platform
runtime = record {
  parse_url = λ raw. none;
  resolve_url = λ raw base. none;
  json_parse = parsed;
  text_of = λ body. [];
  href_matches = λ page. [];
  raw_url_matches = λ page. [];
  sha256_hex = λ bytes. bytes;
  decode = λ bytes. bytes;
  to_iso = λ ms. [];
}

abbrev config : PublisherConfig
config = record {
  broker_url = codes "https://broker.example";
  token = codes "secret";
  logon_model = none;
  version = codes "1.0";
}

abbrev host : Host
host = record { platform = runtime; stringify = spelled; message_of = λ e. codes "failed" }

abbrev served : FreshnessBaseline
served = record {
  origin = broker_snapshot;
  page_api_url = some canonical_page_api_url;
  broker_snapshot_id = snapshot;
  page_api_sha256 = codes "bb";
  page_etag = none;
  page_last_modified = none;
  page_modified_gmt = none;
  pdfs = timetable ∷ [];
}

snapshot_named : snapshot ≢ []
snapshot_named h = cc

last_run_text-stringify_example :
    (last_run_text runtime (some (spelled (last_run_json last_run))) ≡ some last_run)
    × (operation_text runtime (some (spelled (operation_json attempt))) ≡ some attempt)
unfolding last_run_json operation_json text_eq
last_run_text-stringify_example =
    last_run_text-stringify runtime spelled last_run attempt refl refl snapshot_named

detect_change-Ensures_example :
    Ensures
      (Probes runtime)
      (Detects runtime (some served))
      []
      (detect_change runtime (some served))
detect_change-Ensures_example = detect_change-Ensures runtime (some served) []

-- A PDF that comes in two chunks, the first shorter than the signature.
abbrev two_chunks : Stream
two_chunks = record { chunks = codes "%PD" ∷ codes "F-1.7" ∷ []; complete = true }

read_within_iff_example : (read_within 16 (some two_chunks) ≡ returned (codes "%PDF-1.7")) ↔ (
    (true ≡ true)
    × (codes "%PDF-1.7" ≡ joined two_chunks.chunks)
    × (length (codes "%PDF-1.7") ≤ 16))
read_within_iff_example = read_within_iff 16 two_chunks (codes "%PDF-1.7")

abbrev whole : Receiving
whole = record {
  content = codes "%PDF-1.7";
  size = 8;
  magic_checked = true;
  magic_prefix = codes "%PDF-1.7";
}

two_chunks_received : receive_pdf (some two_chunks) ≡ returned whole
unfolding receive_pdf text_eq
two_chunks_received = refl

receive_pdf-returned_example :
    (true ≡ true)
    × (whole.content ≡ joined two_chunks.chunks)
    × (take 5 whole.content ≡ pdf_magic)
    × (8 ≡ length whole.content)
    × (length whole.content ≤ max_pdf_bytes)
receive_pdf-returned_example = receive_pdf-returned two_chunks whole two_chunks_received

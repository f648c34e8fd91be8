-- ===== src/Worker/Tests.antt =====
-- A concrete runtime, deployment, requests and bucket, and the theorems at them.
mod Store
mod Complete
mod Streams
use utm_curs_i_orar.Prelude.{
  ℕ, ◌+◌, ◌≡◌, refl, Bool, true, false, ◌↔◌, Option, none, some, List, [], ◌∷◌, ◌++◌, if◌then◌else◌,
  length, drop, map, any,
}
use utm_curs_i_orar.Text.{Text, codes, text_eq, starts_with, matches}
use utm_curs_i_orar.Worker.Types.{
  Json, finalize, null, num, str, obj, Fields, field, end, PendingFile, PendingDescriptor,
  md_publisher, bytes,
}
use utm_curs_i_orar.Worker.Keys.{snapshot_pdf_key, accepted_payload_key}
use utm_curs_i_orar.Worker.Bucket.{Proc, get, Object, ◌>>=◌}
use utm_curs_i_orar.Worker.Bucket.Rules.{History, Ensures}
use utm_curs_i_orar.Worker.Bucket.Runs.{R2, advance, Interleaved, idle, arrives, calls}
use utm_curs_i_orar.Worker.Bucket.Runs.Immutable.{is_mutable}
use utm_curs_i_orar.Worker.Platform.{Platform, Url, Env}
use utm_curs_i_orar.Worker.Instants.{wp_gmt_instant}
use utm_curs_i_orar.Worker.Policy.{extract_official_pdf_urls}
use utm_curs_i_orar.Worker.Policy.Laws.{IsInventory, extract_official_pdf_urls-IsInventory}
use utm_curs_i_orar.Worker.Descriptors.{descriptor_file_error, plan_snapshot_files}
use utm_curs_i_orar.Worker.Descriptors.Planning.{plan_snapshot_files-IsSound}
use utm_curs_i_orar.Worker.Finalize.{Clock, run_finalize}
use utm_curs_i_orar.Worker.Finalize.Publishing
use utm_curs_i_orar.Worker.Opening.{evaluate_page_timestamp, acceptable}
use utm_curs_i_orar.Worker.Opening.Publication.{OpenPublicationInput, open_publication}
use utm_curs_i_orar.Worker.Opening.Resuming
use utm_curs_i_orar.Worker.Opening.Attempts
use utm_curs_i_orar.Worker.Opening.Temporal.{
  IsNotFuture, IsNotStale, evaluate_page_timestamp-acceptable_iff,
}
use utm_curs_i_orar.Worker.Auth.{authorize_publisher, authorized, current_token}
use utm_curs_i_orar.Worker.Auth.Separation.{Accepts, authorize_publisher-Accepts}
use utm_curs_i_orar.Worker.Requests.{Request, Response}
use utm_curs_i_orar.Worker.Uploads.{handle_upload_publication_file}
use utm_curs_i_orar.Worker.Uploads.Writes
use utm_curs_i_orar.Worker.Publications.{handle_complete_publication}
use utm_curs_i_orar.Worker.Publications.Completing
use utm_curs_i_orar.Worker.Accepted.Pointer.{handle_put_accepted, put_pointer}
use utm_curs_i_orar.Worker.Accepted.{with_course}
use utm_curs_i_orar.Worker.Accepted.Pointing
use utm_curs_i_orar.Worker.Maintenance.{run_retention}
use utm_curs_i_orar.Worker.Maintenance.Sweeping
use utm_curs_i_orar.Worker.Maintenance.Retention
use utm_curs_i_orar.Worker.Maintenance.Reconcile.{run_reconcile}
use utm_curs_i_orar.Worker.Maintenance.Reconcile.Requeuing
use utm_curs_i_orar.Worker.Checked.{fine}
use utm_curs_i_orar.Worker.Jobs.{validate_job}
use utm_curs_i_orar.Worker.Queue.Acknowledging
use utm_curs_i_orar.Worker.Concurrent.{Invocation, points, broker-immutable}
use utm_curs_i_orar.Worker.Tests.Store.{Stored, memory, object_of, updated}

abbrev pub origin_text : Text
origin_text = codes "https://fcim.utm.md"

-- Only absolute URLs of the official origin parse.
abbrev pub parse_official : Text → Option Url
parse_official raw =
    if starts_with origin_text raw
    then some (record {
      protocol = codes "https:";
      hostname = codes "fcim.utm.md";
      port = [];
      username = [];
      password = [];
      search = [];
      hash = [];
      origin = origin_text;
      pathname = drop (length origin_text) raw;
      href = raw;
    })
    else none

abbrev pub timetable_url : Text
timetable_url = codes "https://fcim.utm.md/wp-content/uploads/sites/24/2026/09/orar-anul-1.pdf"

abbrev pub hex_64 : Text
hex_64 = codes "0123456789abcdef0123456789abcdef0123456789abcdef0123456789abcdef"

-- The body of a sound request for the pointer of the first course.
abbrev pub accepted_json : Json
accepted_json = obj (
    field (codes "expected_previous_accepted_id") null (
      field (codes "pointer")
        (obj (
          field (codes "schema_version") (num 1) (
            field (codes "course_year") (num 1) (
              field (codes "accepted_id") (str (codes "a-1")) (
                field (codes "payload_key") (str (codes "accepted-payloads/course-1/a-1.json")) (
                  field (codes "payload_sha256") (str hex_64) (
                    field (codes "source_pdf_hash") (str hex_64) (
                      field (codes "source_snapshot_id")
                        (str (codes "2026-09-01T08-00-00-000Z-0a1b2c3d"))
                        (field (codes "source_pdf_url") (str timetable_url) (
                          field (codes "parser_version") (str (codes "v1")) (
                            field (codes "accepted_at") (str (codes "2026-09-01T09:00:00.000Z"))
                              end)))))))))))
        end))

abbrev pub runtime : Platform
runtime = record {
  parse_url = parse_official;
  resolve_url = λ href base. some href;
  json_parse = λ t. some accepted_json;
  text_of = λ b. [];
  href_matches = λ html. timetable_url ∷ codes "https://example.org/x.pdf" ∷ timetable_url ∷ [];
  raw_url_matches = λ html. timetable_url ∷ [];
  sha256_hex = λ t. t;
  decode = λ t. t;
  to_iso = λ n. codes "2026-09-01T08:00:00.000Z";
}

abbrev publisher_token : Text
publisher_token = codes "0123456789abcdef0123456789abcdef"

abbrev deployment : Env
deployment = record {
  schedule_broker_secret = some (codes "accepted-state-secret");
  md_publisher_token = some publisher_token;
  md_publisher_token_previous = none;
  max_page_future_skew_hours = none;
  fcim_page_api_url = none;
}

abbrev pub snapshot : Text
snapshot = codes "2026-09-01T08-00-00-000Z-0a1b2c3d"

abbrev pub morning : Clock
morning = record {
  at_start = 1000;
  published_at = codes "2026-09-01T08:00:01.000Z";
  at_swap = 1001;
}

abbrev upload_request : Request
upload_request = record {
  header = λ name.
      if text_eq name (codes "authorization")
      then some (codes "Bearer " ++ publisher_token)
      else some (codes "application/pdf");
  body = some (codes "%PDF-");
}

abbrev accepted_request : Request
accepted_request = record {
  header = λ name. some (codes "Bearer accepted-state-secret");
  body = some (codes "{}");
}

abbrev attempt : OpenPublicationInput
attempt = record {
  operation_id = codes "0b6f5a3e-1c2d-4e5f-8a9b-0c1d2e3f4a5b";
  page_api_sha256 = hex_64;
  page_bytes = codes "{}";
  now = 1000;
  random = codes "0a1b2c3d-0000-4000-8000-000000000000";
}

open_publication-Ensures_example :
    Ensures
      (Resuming.Opens runtime deployment attempt)
      (Resuming.Answers runtime deployment attempt)
      []
      (open_publication runtime deployment attempt)
open_publication-Ensures_example = Attempts.open_publication-Ensures runtime deployment attempt

run_finalize-Ensures_example :
    Ensures
      (Publishing.Publishes runtime morning snapshot)
      (Publishing.Reports runtime morning snapshot)
      []
      (run_finalize runtime morning snapshot)
run_finalize-Ensures_example = Publishing.run_finalize-Ensures runtime morning snapshot []

handle_upload_publication_file-Ensures_example :
    Ensures
      (Writes.Stores runtime 1000 (codes "now") snapshot (codes "f0") upload_request)
      (Writes.Answers runtime 1000 (codes "now") snapshot (codes "f0") upload_request)
      []
      (handle_upload_publication_file runtime deployment 1000
        (codes "now")
        upload_request
        snapshot
        (codes "f0"))
handle_upload_publication_file-Ensures_example =
    Writes.handle_upload_publication_file-Ensures runtime 1000 (codes "now") snapshot (codes "f0")
      upload_request deployment

handle_complete_publication-Ensures_example :
    Ensures
      (Completing.Completes runtime deployment 1000 morning upload_request snapshot)
      (Completing.Answers runtime deployment 1000 morning upload_request snapshot)
      []
      (handle_complete_publication runtime deployment 1000 morning upload_request snapshot)
handle_complete_publication-Ensures_example =
    Completing.handle_complete_publication-Ensures runtime deployment 1000 morning upload_request
      snapshot

handle_put_accepted-Ensures_example :
    Ensures
      (Pointing.Points runtime deployment accepted_request (codes "1"))
      (Pointing.Answers runtime deployment accepted_request (codes "1"))
      []
      (handle_put_accepted runtime deployment accepted_request (codes "1"))
handle_put_accepted-Ensures_example =
    Pointing.handle_put_accepted-Ensures runtime deployment accepted_request (codes "1")

abbrev finalize_job : Json
finalize_job = obj (
    field (codes "schema_version") (num 1) (
      field (codes "kind") (str (codes "finalize"))
        (field (codes "snapshot_id") (str (codes "2026-09-01T08-00-00-000Z-0a1b2c3d")) end)))

is_job : validate_job finalize_job ≡ fine (finalize (codes "2026-09-01T08-00-00-000Z-0a1b2c3d"))
unfolding validate_job matches
is_job = refl

run_retention-Ensures_example :
    Ensures
      (Sweeping.Sweeps runtime 1000)
      (Sweeping.AnyResult runtime 1000)
      []
      (run_retention 1000 runtime)
run_retention-Ensures_example = Retention.run_retention-Ensures runtime 1000 [] refl

run_reconcile-Ensures_example :
    Ensures
      (Requeuing.Repairs runtime 1000)
      (Requeuing.Reports runtime 1000)
      []
      (run_reconcile 1000 runtime)
run_reconcile-Ensures_example = Requeuing.run_reconcile-Ensures runtime 1000

is_authorized :
    authorize_publisher runtime deployment (some (codes "Bearer " ++ publisher_token))
    ≡ authorized current_token
unfolding authorize_publisher
is_authorized = refl

authorize_publisher-Accepts_example :
    Accepts runtime deployment (some (codes "Bearer " ++ publisher_token)) current_token
authorize_publisher-Accepts_example =
    authorize_publisher-Accepts runtime deployment (some (codes "Bearer " ++ publisher_token))
      current_token is_authorized

evaluate_page_timestamp-acceptable_iff_example :
    (evaluate_page_timestamp (some (codes "2026-09-01T08:00:00")) none 1000 5 ≡ acceptable) ↔ (
      IsNotFuture (1000 + 5) (wp_gmt_instant (some (codes "2026-09-01T08:00:00")))
      × IsNotStale (wp_gmt_instant none) (wp_gmt_instant (some (codes "2026-09-01T08:00:00"))))
evaluate_page_timestamp-acceptable_iff_example =
    evaluate_page_timestamp-acceptable_iff (some (codes "2026-09-01T08:00:00")) none 1000 5

extract_official_pdf_urls-IsInventory_example :
    IsInventory runtime (extract_official_pdf_urls runtime (codes "<a>"))
extract_official_pdf_urls-IsInventory_example =
    extract_official_pdf_urls-IsInventory runtime (codes "<a>")

abbrev pub planned_file : PendingFile
planned_file = record {
  file_id = codes "f0";
  filename = codes "orar-anul-1.pdf";
  source_url = timetable_url;
  r2_key = codes "snapshots/2026-09-01T08-00-00-000Z-0a1b2c3d/pdfs/orar-anul-1.pdf";
}

abbrev pub planned_descriptor : PendingDescriptor
planned_descriptor = record {
  snapshot_id = snapshot;
  previous_snapshot_id = none;
  created_at = [];
  current_etag = none;
  operation_id = [];
  page_api_sha256 = [];
  origin = md_publisher;
  source = record {
    page_api_url = [];
    page_id = none;
    page_modified_gmt = none;
    retrieved_at = [];
    etag = none;
    last_modified = none;
  };
  files = planned_file ∷ [];
}

is_planned : plan_snapshot_files runtime snapshot (timetable_url ∷ []) ≡ some (planned_file ∷ [])
unfolding plan_snapshot_files snapshot_pdf_key
is_planned = refl

plan_snapshot_files-IsSound_example :
    (descriptor_file_error runtime planned_descriptor ≡ none)
    × (map (λ (f : PendingFile). f.source_url) planned_descriptor.files ≡ timetable_url ∷ [])
plan_snapshot_files-IsSound_example =
    plan_snapshot_files-IsSound runtime snapshot timetable_url [] (planned_file ∷ [])
      planned_descriptor is_planned refl refl

abbrev page_key : Text
page_key = codes "snapshots/2026-09-01T08-00-00-000Z-0a1b2c3d/page-api.json"

abbrev page : Object
page = object_of (bytes (codes "{}")) []

abbrev with_page : Stored
with_page = updated (λ k. none) page_key (some page)

abbrev setting : Proc Response
setting = handle_put_accepted runtime deployment accepted_request (codes "1")

is_immutable : is_mutable page_key ≡ false
unfolding is_mutable text_eq starts_with
is_immutable = refl

-- The request reads the payload that it names, so it is not refused before.
is_sound : (k : Text) × (c : Option Object → Proc Response) × (setting ≡ get k c)
unfolding handle_put_accepted with_course put_pointer ◌>>=◌ accepted_payload_key
is_sound = (codes "accepted-payloads/course-1/a-1.json", _, refl)

broker-immutable_example : (advance memory setting with_page).1 page_key ≡ some page
unfolding text_eq
broker-immutable_example =
    broker-immutable memory page_key page with_page (advance memory setting with_page).1
      ((advance memory setting with_page).0 ∷ []) is_immutable refl
      (calls [] setting []
        (arrives setting (points runtime deployment accepted_request (codes "1")) idle) refl)

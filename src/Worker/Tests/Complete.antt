-- ===== src/Worker/Tests/Complete.antt =====
-- A bucket with a complete snapshot, and its finalize.
use utm_curs_i_orar.Prelude.{◌≡◌, refl, none, some, List, [], ◌∷◌}
use utm_curs_i_orar.Text.{codes, text_eq}
use utm_curs_i_orar.Worker.Types.{
  CompletionMarker, SnapshotFile, marker, descriptor, bytes, md_publisher,
}
use utm_curs_i_orar.Worker.Keys.{
  snapshot_manifest_key, snapshot_page_api_key, snapshot_pdf_key, pending_descriptor_key,
  pending_completion_key,
}
use utm_curs_i_orar.Worker.Bucket.{Object}
use utm_curs_i_orar.Worker.Bucket.Runs.{run}
use utm_curs_i_orar.Worker.Instants.{snapshot_work_expired, snapshot_id_instant}
use utm_curs_i_orar.Worker.Descriptors.{descriptor_file_error, plan_snapshot_files}
use utm_curs_i_orar.Worker.Descriptors.Planning.{plan_snapshot_files-IsSound}
use utm_curs_i_orar.Worker.Finalize.{collect, manifest_file, points_at, run_finalize}
use utm_curs_i_orar.Worker.Finalize.Succeeding.{
  inspected, IsComplete, IsPublished, run_finalize-IsPublished,
}
use utm_curs_i_orar.Worker.Tests.{
  runtime, snapshot, morning, timetable_url, planned_file, planned_descriptor,
}
use utm_curs_i_orar.Worker.Tests.Store.{Stored, memory, object_of, updated}

abbrev file_marker : CompletionMarker
file_marker = record {
  snapshot_id = snapshot;
  file_id = codes "f0";
  filename = codes "orar-anul-1.pdf";
  source_url = timetable_url;
  r2_key = codes "snapshots/2026-09-01T08-00-00-000Z-0a1b2c3d/pdfs/orar-anul-1.pdf";
  content_type = some (codes "application/pdf");
  size = some 7;
  upstream_etag = none;
  upstream_last_modified = none;
  publisher_observed_etag = none;
  publisher_observed_last_modified = none;
  content_sha256 = none;
  completed_at = codes "2026-09-01T08:00:00.500Z";
}

abbrev pdf : Object
pdf = object_of (bytes (codes "%PDF-")) []

abbrev stored : Stored
stored =
    updated
      (updated
        (updated
          (updated (λ k. none) (codes "pending/2026-09-01T08-00-00-000Z-0a1b2c3d/descriptor.json")
            (some (object_of (descriptor planned_descriptor) [])))
          (codes "snapshots/2026-09-01T08-00-00-000Z-0a1b2c3d/page-api.json")
          (some (object_of (bytes (codes "{}")) [])))
        (codes "snapshots/2026-09-01T08-00-00-000Z-0a1b2c3d/pdfs/orar-anul-1.pdf") (some pdf))
      (codes "pending/2026-09-01T08-00-00-000Z-0a1b2c3d/completed/f0.json")
      (some (object_of (marker file_marker) []))

abbrev entries : List SnapshotFile
entries = manifest_file md_publisher planned_file pdf file_marker ∷ []

is_sound : descriptor_file_error runtime planned_descriptor ≡ none
unfolding plan_snapshot_files snapshot_pdf_key
is_sound =
    (plan_snapshot_files-IsSound runtime snapshot timetable_url [] (planned_file ∷ [])
      planned_descriptor refl refl refl).0

is_complete : IsComplete memory runtime morning snapshot stored planned_descriptor entries
unfolding text_eq snapshot_id_instant snapshot_work_expired snapshot_manifest_key
    snapshot_page_api_key pending_descriptor_key pending_completion_key collect points_at inspected
    manifest_file
is_complete = record {
  other = refl;
  in_time = refl;
  still_in_time = refl;
  described = refl;
  sound = is_sound;
  page = (object_of (bytes (codes "{}")) [], refl);
  uploaded = refl;
  unclosed = refl;
  unmoved = refl;
}

run_finalize-IsPublished_example :
    IsPublished memory runtime morning snapshot planned_descriptor entries
      (run memory (run_finalize runtime morning snapshot) stored)
run_finalize-IsPublished_example =
    run_finalize-IsPublished memory runtime morning snapshot stored planned_descriptor entries
      is_complete

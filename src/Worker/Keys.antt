-- ===== src/Worker/Keys.antt =====
-- worker/src/keys.ts: every key that the broker reads or writes.
pub mod Laws
use utm_curs_i_orar.Prelude.{ℕ, ◌++◌}
use utm_curs_i_orar.Text.{Text, codes, decimal}

abbrev pub current_key : Text
current_key = codes "current.json"

abbrev pub snapshot_prefix : Text
snapshot_prefix = codes "snapshots/"

abbrev pub pending_prefix : Text
pending_prefix = codes "pending/"

abbrev pub operation_prefix : Text
operation_prefix = codes "operations/"

abbrev pub publisher_heartbeat_key : Text
publisher_heartbeat_key = codes "publisher/heartbeat.json"

unfoldable pub operation_key : Text → Text
operation_key operation_id = operation_prefix ++ (operation_id ++ codes ".json")

unfoldable pub snapshot_page_api_key : Text → Text
snapshot_page_api_key snapshot_id = snapshot_prefix ++ (snapshot_id ++ codes "/page-api.json")

unfoldable pub snapshot_manifest_key : Text → Text
snapshot_manifest_key snapshot_id = snapshot_prefix ++ (snapshot_id ++ codes "/manifest.json")

unfoldable pub snapshot_pdf_key : Text → Text → Text
snapshot_pdf_key snapshot_id filename =
    snapshot_prefix ++ (snapshot_id ++ (codes "/pdfs/" ++ filename))

unfoldable pub pending_descriptor_key : Text → Text
pending_descriptor_key snapshot_id = pending_prefix ++ (snapshot_id ++ codes "/descriptor.json")

unfoldable pub pending_completion_key : Text → Text → Text
pending_completion_key snapshot_id file_id =
    pending_prefix ++ (snapshot_id ++ (codes "/completed/" ++ (file_id ++ codes ".json")))

unfoldable pub accepted_pointer_key : ℕ → Text
accepted_pointer_key course_year =
    codes "accepted/course-" ++ (decimal course_year ++ codes ".json")

unfoldable pub accepted_payload_key : ℕ → Text → Text
accepted_payload_key course_year accepted_id =
    codes "accepted-payloads/course-"
    ++ (decimal course_year ++ (codes "/" ++ (accepted_id ++ codes ".json")))

-- ===== src/Worker/Accepted/Pointer.antt =====
-- worker/src/accepted-handler.ts: the pointer to the accepted payload of a course, which a client
-- replaces only when it names the one that it replaces.
use utm_curs_i_orar.Prelude.{ℕ, Bool, false, ◌&&◌, not, Option, none, some, [], ◌==◌, if◌then◌else◌}
use utm_curs_i_orar.Text.{Text, codes, text_eq, option_eq, nullable_eq, decimal}
use utm_curs_i_orar.Worker.Types.{
  Json, null, num, str, Fields, AcceptedPointer, AcceptedPointerWriteRequest, accepted,
}
use utm_curs_i_orar.Worker.Keys.{accepted_payload_key, accepted_pointer_key}
use utm_curs_i_orar.Worker.Bucket.{Proc, done, read, write, Object, if_absent, if_etag, ◌>>=◌}
use utm_curs_i_orar.Worker.Checked
use utm_curs_i_orar.Worker.Checked.{Checked, fine, fault, require, present, tested}
use utm_curs_i_orar.Worker.Platform.{Platform, Env}
use utm_curs_i_orar.Worker.Documents.{as_accepted}
use utm_curs_i_orar.Worker.Instants.{is_snapshot_id}
use utm_curs_i_orar.Worker.Policy.{is_official_timetable_pdf_url}
use utm_curs_i_orar.Worker.Pointer.{field_of, as_text, as_fields, is_one, is_iso_instant}
use utm_curs_i_orar.Worker.Auth.{verify_auth}
use utm_curs_i_orar.Worker.Requests.{
  Request, Response, failure, pointer_created, pointer_updated, pointer_idempotent,
}
use utm_curs_i_orar.Worker.Uploads.{fail, meta_of}
use utm_curs_i_orar.Worker.Accepted.{
  is_accepted_id, is_hex_64, is_parser_version, folded_eq, with_course, serve,
}

-- A field that must be null or a string: none is an error.
expected_previous : Option Json → Option (Option Text)
expected_previous (some null) = some none
expected_previous (some (str t)) = some (some t)
expected_previous _ = none

object_field : Option Json → Option Fields
object_field none = none
object_field (some j) = as_fields j

is_year : ℕ → Option Json → Bool
is_year year (some (num n)) = n == year
is_year year _ = false

module _ (p : Platform) (year : ℕ) where
  unfoldable pub validate_pointer_request : Option Json → Checked ℕ AcceptedPointerWriteRequest
  unfolding expected_previous object_field is_year field_of is_accepted_id is_hex_64
      is_parser_version is_snapshot_id is_iso_instant is_official_timetable_pdf_url text_eq
  validate_pointer_request payload = Checked.◌>>=◌ (present (object_field payload) 400) λ req.
      Checked.◌>>=◌
        (present (expected_previous (field_of (codes "expected_previous_accepted_id") req)) 400)
        λ expected.
          Checked.◌>>=◌ (present (object_field (field_of (codes "pointer") req)) 400) λ pointer.
            Checked.◌>>=◌ (require (is_one (field_of (codes "schema_version") pointer)) 400) λ _.
              Checked.◌>>=◌ (require (is_year year (field_of (codes "course_year") pointer)) 400)
                λ _.
                  Checked.◌>>=◌
                    (tested is_accepted_id (as_text (field_of (codes "accepted_id") pointer)) 400)
                    λ id.
                      Checked.◌>>=◌
                        (tested (λ k. text_eq k (accepted_payload_key year id))
                          (as_text (field_of (codes "payload_key") pointer)) 400)
                        λ key.
                          Checked.◌>>=◌
                            (tested is_hex_64 (as_text (field_of (codes "payload_sha256") pointer))
                              400)
                            λ sha256.
                              Checked.◌>>=◌
                                (tested is_hex_64
                                  (as_text (field_of (codes "source_pdf_hash") pointer)) 400)
                                λ hash.
                                  Checked.◌>>=◌
                                    (tested is_snapshot_id
                                      (as_text (field_of (codes "source_snapshot_id") pointer)) 400)
                                    λ snapshot.
                                      Checked.◌>>=◌
                                        (tested (is_official_timetable_pdf_url p)
                                          (as_text (field_of (codes "source_pdf_url") pointer)) 400)
                                        λ url.
                                          Checked.◌>>=◌
                                            (tested is_parser_version
                                              (as_text (field_of (codes "parser_version") pointer))
                                              400)
                                            λ version.
                                              Checked.◌>>=◌
                                                (tested is_iso_instant
                                                  (as_text (field_of (codes "accepted_at") pointer))
                                                  400)
                                                λ at. fine (record {
                                                  expected_previous_accepted_id = expected;
                                                  pointer = record {
                                                    course_year = year;
                                                    accepted_id = id;
                                                    payload_key = key;
                                                    payload_sha256 = sha256;
                                                    source_snapshot_id = snapshot;
                                                    source_pdf_url = url;
                                                    source_pdf_hash = hash;
                                                    parser_version = version;
                                                    accepted_at = at;
                                                  };
                                                })

-- The payload's metadata agrees with the pointer, field by field.
unfoldable pub agrees_with_payload : AcceptedPointer → Object → Bool
unfolding meta_of folded_eq
agrees_with_payload a o =
    option_eq (meta_of (codes "course_year") o.custom) (decimal a.course_year)
    && folded_eq (meta_of (codes "source_pdf_hash") o.custom) a.source_pdf_hash
    && option_eq (meta_of (codes "source_pdf_url") o.custom) a.source_pdf_url
    && folded_eq (meta_of (codes "payload_sha256") o.custom) a.payload_sha256
    && option_eq (meta_of (codes "parser_version") o.custom) a.parser_version
    && option_eq (meta_of (codes "snapshot_id") o.custom) a.source_snapshot_id
    && option_eq (meta_of (codes "accepted_at") o.custom) a.accepted_at

module _ (year : ℕ) (expected : Option Text) (a : AcceptedPointer) where
  unfoldable pub swap_answer : Response → Option Object → Response
  swap_answer made (some _) = made
  swap_answer made none = failure 409 (codes "CAS_CONFLICT")

  unfoldable pub replace_pointer : Object → AcceptedPointer → Proc Response
  unfolding ◌>>=◌ swap_answer text_eq
  replace_pointer o existing =
      if text_eq existing.accepted_id a.accepted_id
      then done (pointer_idempotent a.accepted_id)
      else if nullable_eq (some existing.accepted_id) expected
      then (do
        r ← write (accepted_pointer_key year) (accepted a) (if_etag o.etag) []
        done (swap_answer (pointer_updated a.accepted_id) r))
      else fail 409 []

  unfoldable pub swap_accepted : Option Object → Proc Response
  unfolding ◌>>=◌ replace_pointer swap_answer
  swap_accepted (some o) = elim (as_accepted o.body) [
    | none ↦ fail 500 []
    | some existing ↦ replace_pointer o existing
  ]
  swap_accepted none = elim expected [
    | some _ ↦ fail 409 []
    | none ↦ do
      r ← write (accepted_pointer_key year) (accepted a) if_absent []
      done (swap_answer (pointer_created a.accepted_id) r)
  ]

  unfoldable pub with_payload : Option Object → Proc Response
  unfolding ◌>>=◌ swap_accepted agrees_with_payload
  with_payload none = fail 400 []
  with_payload (some o) =
      if agrees_with_payload a o
      then (do existing ← read (accepted_pointer_key year); swap_accepted existing)
      else fail 400 []

unfoldable pub put_pointer : ℕ → Checked ℕ AcceptedPointerWriteRequest → Proc Response
unfolding ◌>>=◌ with_payload
put_pointer year (fault status) = fail status []
put_pointer year (fine r) = do
  payload ← read r.pointer.payload_key
  with_payload year r.expected_previous_accepted_id r.pointer payload

unfoldable pub body_json : Platform → Option Text → Option Json
body_json p none = none
body_json p (some t) = p.json_parse (p.decode t)

unfoldable pub handle_put_accepted : Platform → Env → Request → Text → Proc Response
unfolding verify_auth with_course put_pointer validate_pointer_request body_json
handle_put_accepted p env request course =
    if not (verify_auth env (request.header (codes "authorization")))
    then fail 401 []
    else with_course course
        (λ year. put_pointer year (validate_pointer_request p year (body_json p request.body)))

unfoldable pub handle_get_accepted : Text → Proc Response
unfolding ◌>>=◌ with_course serve
handle_get_accepted course =
    with_course course (λ year. do o ← read (accepted_pointer_key year); done (serve o))

-- ===== src/Worker/Accepted.antt =====
-- worker/src/accepted-handler.ts: the immutable accepted payloads, and the compare-and-swapped
-- pointer to the one that counts.
pub mod Pointer
pub mod Pointing
use utm_curs_i_orar.Prelude.{
  ℕ, ◌*◌, Bool, true, false, ◌&&◌, ◌||◌, not, Option, none, some, List, [], ◌∷◌, ltb, leb, ◌==◌,
  if◌then◌else◌, length, all,
}
use utm_curs_i_orar.Text.{
  Text, codes, text_eq, option_eq, nullable_eq, to_lower, matches, times, any_hex, is_digit,
  is_lower, is_upper, decimal,
}
use utm_curs_i_orar.Worker.Types.{
  Json, null, num, str, Fields, AcceptedPointer, AcceptedPointerWriteRequest, accepted, Body,
}
use utm_curs_i_orar.Worker.Keys.{accepted_payload_key, accepted_pointer_key}
use utm_curs_i_orar.Worker.Bucket.{
  Proc, done, stream, read, write, Object, Meta, Upload, written, lost, too_large, bad_prefix,
  bad_hash, bad_length, broken, if_absent, if_etag, ◌>>=◌,
}
use utm_curs_i_orar.Worker.Checked
use utm_curs_i_orar.Worker.Checked.{Checked, fine, fault, require, present, tested}
use utm_curs_i_orar.Worker.Platform.{Platform, Env}
use utm_curs_i_orar.Worker.Documents.{as_accepted}
use utm_curs_i_orar.Worker.Instants.{is_snapshot_id}
use utm_curs_i_orar.Worker.Policy.{is_official_timetable_pdf_url}
use utm_curs_i_orar.Worker.Pointer.{field_of, as_text, as_fields, is_one, is_iso_instant}
use utm_curs_i_orar.Worker.Courses.{parse_supported_course_year}
use utm_curs_i_orar.Worker.Auth.{verify_auth}
use utm_curs_i_orar.Worker.Requests.{
  Request, Response, failure, payload_created, payload_idempotent, pointer_created, pointer_updated,
  pointer_idempotent, served, given, content_type_is, content_length_or_null, exceeds,
}
use utm_curs_i_orar.Worker.Uploads.{fail, meta_of}

abbrev pub max_payload_bytes : ℕ
max_payload_bytes = 10 * 1024 * 1024

abbrev pub max_accepted_id_length : ℕ
max_accepted_id_length = 128

abbrev is_safe_unit : ℕ → Bool
is_safe_unit c = is_digit c || is_lower c || is_upper c || c == b'.' || c == b'_' || c == b'-'

-- SAFE_ID_REGEX with the length limit that every use adds, PARSER_VERSION_REGEX, HEX_64_REGEX.
unfoldable pub is_accepted_id : Text → Bool
is_accepted_id t = leb 1 (length t) && all is_safe_unit t && leb (length t) max_accepted_id_length

unfoldable pub is_parser_version : Text → Bool
is_parser_version t = leb 1 (length t) && leb (length t) 64 && all is_safe_unit t

unfoldable pub is_hex_64 : Text → Bool
unfolding matches
is_hex_64 t = matches (times 64 any_hex []) t

-- What the headers of a payload declare.
pub record Provenance : Type 0 where
  pub source_pdf_hash : Text
  pub source_pdf_url : Text
  pub payload_sha256 : Text
  pub snapshot_id : Text
  pub parser_version : Text
  pub accepted_at : Text

module _ (p : Platform) where
  unfoldable pub check_provenance : Request → ℕ → Checked ℕ Provenance
  unfolding is_hex_64 is_parser_version is_snapshot_id is_iso_instant is_official_timetable_pdf_url
      text_eq
  check_provenance request course_year =
      Checked.◌>>=◌ (tested is_hex_64 (request.header (codes "x-source-pdf-hash")) 400) λ hash.
        Checked.◌>>=◌ (tested is_hex_64 (request.header (codes "x-payload-sha256")) 400) λ sha256.
          Checked.◌>>=◌ (tested is_snapshot_id (request.header (codes "x-snapshot-id")) 400)
            λ snapshot.
              Checked.◌>>=◌
                (tested (is_official_timetable_pdf_url p)
                  (request.header (codes "x-source-pdf-url")) 400)
                λ url.
                  Checked.◌>>=◌
                    (tested is_parser_version (request.header (codes "x-parser-version")) 400)
                    λ version.
                      Checked.◌>>=◌
                        (tested is_iso_instant (request.header (codes "x-accepted-at")) 400)
                        λ accepted.
                          Checked.◌>>=◌
                            (require
                              (elim (request.header (codes "x-course-year")) [
                                | none ↦ true
                                | some year ↦ text_eq year (decimal course_year)
                              ])
                              400)
                            λ _. fine (record {
                              source_pdf_hash = hash;
                              source_pdf_url = url;
                              payload_sha256 = sha256;
                              snapshot_id = snapshot;
                              parser_version = version;
                              accepted_at = accepted;
                            })

unfoldable pub payload_meta : ℕ → Provenance → Meta
unfolding to_lower
payload_meta course_year v =
    (codes "course_year", decimal course_year)
    ∷ (codes "source_pdf_hash", to_lower v.source_pdf_hash)
    ∷ (codes "source_pdf_url", v.source_pdf_url)
    ∷ (codes "payload_sha256", to_lower v.payload_sha256)
    ∷ (codes "snapshot_id", v.snapshot_id)
    ∷ (codes "parser_version", v.parser_version)
    ∷ (codes "accepted_at", v.accepted_at)
    ∷ []

-- `meta?.name?.toLowerCase() === value.toLowerCase()`
unfoldable pub folded_eq : Option Text → Text → Bool
unfolding to_lower text_eq
folded_eq none value = false
folded_eq (some t) value = text_eq (to_lower t) (to_lower value)

unfoldable pub is_same_payload : ℕ → Provenance → Object → Bool
unfolding meta_of folded_eq
is_same_payload course_year v o =
    option_eq (meta_of (codes "course_year") o.custom) (decimal course_year)
    && folded_eq (meta_of (codes "source_pdf_hash") o.custom) v.source_pdf_hash
    && option_eq (meta_of (codes "source_pdf_url") o.custom) v.source_pdf_url
    && folded_eq (meta_of (codes "payload_sha256") o.custom) v.payload_sha256
    && option_eq (meta_of (codes "parser_version") o.custom) v.parser_version
    && option_eq (meta_of (codes "snapshot_id") o.custom) v.snapshot_id

module _ (course_year : ℕ) (accepted_id : Text) where
  unfoldable pub payload_answer : Upload → Response
  payload_answer (written size) =
      payload_created accepted_id (accepted_payload_key course_year accepted_id)
  payload_answer lost = failure 409 (codes "PAYLOAD_CONFLICT")
  payload_answer too_large = failure 413 []
  payload_answer bad_prefix = failure 500 []
  payload_answer bad_hash = failure 500 []
  payload_answer bad_length = failure 500 []
  payload_answer broken = failure 500 []

  unfoldable pub store_payload : Provenance → Option Object → Proc Response
  unfolding is_same_payload payload_meta payload_answer
  store_payload v (some o) =
      if is_same_payload course_year v o
      then done (payload_idempotent accepted_id (accepted_payload_key course_year accepted_id))
      else fail 409 (codes "PAYLOAD_CONFLICT")
  store_payload v none =
      stream (accepted_payload_key course_year accepted_id) if_absent (payload_meta course_year v)
        (λ u. done (payload_answer u))

  unfoldable pub put_payload : Option Text → Checked ℕ Provenance → Proc Response
  unfolding ◌>>=◌ store_payload
  put_payload body (fault status) = fail status []
  put_payload none (fine v) = fail 400 []
  put_payload (some _) (fine v) = do
    existing ← read (accepted_payload_key course_year accepted_id)
    store_payload v existing

unfoldable pub with_course : Text → (ℕ → Proc Response) → Proc Response
unfolding parse_supported_course_year
with_course raw route = elim (parse_supported_course_year raw) [
  | none ↦ fail 400 []
  | some year ↦ route year
]

unfoldable pub handle_put_accepted_payload : Platform → Env → Request → Text → Text → Proc Response
unfolding verify_auth with_course put_payload check_provenance is_accepted_id content_type_is
    content_length_or_null
handle_put_accepted_payload p env request course accepted_id =
    if not (verify_auth env (request.header (codes "authorization")))
    then fail 401 []
    else with_course course (λ year.
      if not (is_accepted_id accepted_id)
      then fail 400 []
      else if not
          (content_type_is (codes "application/json") (request.header (codes "content-type")))
      then fail 400 []
      else if exceeds max_payload_bytes
          (content_length_or_null (request.header (codes "content-length")))
      then fail 413 []
      else put_payload year accepted_id request.body (check_provenance p request year))

unfoldable pub serve : Option Object → Response
serve none = failure 404 []
serve (some o) = served o.body

unfoldable pub handle_get_accepted_payload : Text → Text → Proc Response
unfolding ◌>>=◌ with_course is_accepted_id serve
handle_get_accepted_payload course accepted_id = with_course course (λ year.
    if not (is_accepted_id accepted_id)
    then fail 400 []
    else do o ← read (accepted_payload_key year accepted_id); done (serve o))

-- ===== src/Worker/Jobs.antt =====
-- worker/src/jobs.ts, with `getPdfFilename` of worker/src/extractor.ts: planned files, their
-- validation, and the jobs of the queue.
use utm_curs_i_orar.Prelude.{
  ℕ, ◌-◌, Bool, true, false, ◌||◌, not, Option, none, some, [], ◌∷◌, ◌++◌, ◌==◌, if◌then◌else◌,
  length, drop, take, all,
}
use utm_curs_i_orar.Text.{
  Text, codes, text_eq, digit, unit, times, matches, after_last_slash, decimal,
}
use utm_curs_i_orar.Worker.Types.{Json, PendingFile, PublicationJob, finalize, reconcile}
use utm_curs_i_orar.Worker.Keys.{snapshot_pdf_key}
use utm_curs_i_orar.Worker.Instants.{is_snapshot_id}
use utm_curs_i_orar.Worker.Platform.{Platform}
use utm_curs_i_orar.Worker.Policy.{
  is_official_timetable_pdf_url, is_safe_official_pdf_filename, max_official_pdf_filename_length,
}
use utm_curs_i_orar.Worker.Pointer.{field_of, as_text, as_fields, is_one}
use utm_curs_i_orar.Worker.Checked.{Checked, fine, fault, ◌>>=◌, ◌>>◌, require, present, tested}

-- FILE_ID_REGEX, `/^f\d{1,3}$/`
unfoldable pub is_file_id : Text → Bool
unfolding matches
is_file_id t =
    matches (unit b'f' ∷ times 1 digit []) t
    || matches (unit b'f' ∷ times 2 digit []) t
    || matches (unit b'f' ∷ times 3 digit []) t

-- The year and the month of the first `/dddd/dd/` in a URL.
upload_month : Text → Option (Text × Text)
unfolding matches
upload_month [] = none
upload_month (c ∷ cs) =
    let rest = upload_month cs in
    if matches (unit b'/' ∷ times 4 digit (unit b'/' ∷ times 2 digit (unit b'/' ∷ [])))
      (take 9 (c ∷ cs))
    then some (take 4 cs, take 2 (drop 5 cs))
    else rest

-- `replace(/\.+$/, "")`
drop_last_dots : Text → Text
drop_last_dots [] = []
drop_last_dots (c ∷ cs) = elim (drop_last_dots cs) [
  | [] ↦ if c == b'.' then [] else c ∷ []
  | d ∷ ds ↦ c ∷ d ∷ ds
]

qualified : Text → Text → Text
unfolding drop_last_dots
qualified prefix basename =
    let n = length basename - 4 in
    let stem =
      drop_last_dots
        (take (max_official_pdf_filename_length - 4 - length prefix) (take n basename)) in
    prefix ++ (stem ++ drop n basename)

-- none is the exception that reading a month which is not there throws.
unfoldable pub qualified_pdf_filename : Text → Option Text → Option Text
unfolding upload_month qualified after_last_slash
qualified_pdf_filename source_url file_id = elim (upload_month source_url) [
  | none ↦ none
  | some (year, month) ↦
      let dated = year ++ (codes "-" ++ (month ++ codes "-")) in
      let prefix : Text = elim file_id [ none ↦ dated | some id ↦ id ++ (codes "-" ++ dated) ] in
      some (qualified prefix (after_last_slash source_url))
]

abbrev pub file_id_for_index : ℕ → Text
file_id_for_index index = codes "f" ++ decimal index

-- `getPdfFilename`; every text that reaches it is a URL with a slash.
unfoldable pub get_pdf_filename : Text → Text
unfolding after_last_slash
get_pdf_filename url =
    if all (λ c. not (c == b'/')) url then codes "timetable.pdf" else after_last_slash url

pub data FileError : Type 0 where
  bad_snapshot_id bad_file_id bad_filename bad_source_url bad_r2_key underived_filename
        no_upload_month :
      FileError

module _ (p : Platform) where
  unfoldable pub validate_pending_file : Text → PendingFile → Checked FileError (Unit {0})
  unfolding is_snapshot_id is_file_id is_safe_official_pdf_filename is_official_timetable_pdf_url
      text_eq after_last_slash qualified_pdf_filename
  validate_pending_file snapshot_id entry = do
    require (is_snapshot_id snapshot_id) bad_snapshot_id
    require (is_file_id entry.file_id) bad_file_id
    require (is_safe_official_pdf_filename entry.filename) bad_filename
    require (is_official_timetable_pdf_url p entry.source_url) bad_source_url
    require (text_eq entry.r2_key (snapshot_pdf_key snapshot_id entry.filename)) bad_r2_key
    if text_eq entry.filename (after_last_slash entry.source_url) then fine tt else do
      dated ← present (qualified_pdf_filename entry.source_url none) no_upload_month
      numbered ←
          present (qualified_pdf_filename entry.source_url (some entry.file_id)) no_upload_month
      require (text_eq entry.filename dated || text_eq entry.filename numbered) underived_filename

abbrev pub is_valid_file : Platform → Text → PendingFile → Bool
is_valid_file p snapshot_id entry = elim (validate_pending_file p snapshot_id entry) [
  | fine _ ↦ true
  | fault _ ↦ false
]

pub data JobError : Type 0 where
  not_an_object unsupported_schema invalid_snapshot_id removed_kind unknown_kind : JobError

unfoldable pub validate_job : Json → Checked JobError PublicationJob
unfolding field_of is_snapshot_id text_eq
validate_job body = do
  job ← present (as_fields body) not_an_object
  require (is_one (field_of (codes "schema_version") job)) unsupported_schema
  kind ← present (as_text (field_of (codes "kind") job)) unknown_kind
  if text_eq kind (codes "reconcile")
      then fine reconcile
      else if text_eq kind (codes "finalize")
      then (do
        id ←
            tested is_snapshot_id (as_text (field_of (codes "snapshot_id") job)) invalid_snapshot_id
        fine (finalize id))
      else if text_eq kind (codes "discover") || text_eq kind (codes "ingest_pdf")
      then fault removed_kind
      else fault unknown_kind

-- ===== src/Worker/Descriptors.antt =====
-- The planning and the descriptors of worker/src/publisher.ts.
pub mod Planning
use utm_curs_i_orar.Prelude.{
  ℕ, zero, suc, ◌+◌, ◌-◌, Bool, true, false, ◌&&◌, ◌||◌, not, Option, none, some, List, [], ◌∷◌,
  ◌++◌, map, if◌then◌else◌,
}
use utm_curs_i_orar.Text.{Text, codes, text_eq}
use utm_curs_i_orar.Worker.Types.{
  PendingFile, PendingDescriptor, OperationRecord, PublicationPlan, PublicationPlanFile, FileStatus,
  needed, stored,
}
use utm_curs_i_orar.Worker.Keys.{
  snapshot_pdf_key, pending_descriptor_key, pending_completion_key, operation_key,
}
use utm_curs_i_orar.Worker.Bucket.{Proc, done, read, Object, ◌>>=◌}
use utm_curs_i_orar.Worker.Documents.{as_descriptor, as_operation}
use utm_curs_i_orar.Worker.Instants.{snapshot_id_instant, pending_max_age_ms}
use utm_curs_i_orar.Worker.Platform.{Platform}
use utm_curs_i_orar.Worker.Policy.{is_official_timetable_pdf_url, contains}
use utm_curs_i_orar.Worker.Jobs.{
  is_valid_file, validate_pending_file, file_id_for_index, get_pdf_filename, qualified_pdf_filename,
}

pub data DescriptorError : Type 0 where
  no_files invalid_file duplicate_file : DescriptorError

module _ (p : Platform) where
  -- The name of a planned file: the basename, else with its month, else with its id too. none is
  -- an exception.
  unfoldable pub choose_filename : List Text → ℕ → Text → Option Text
  unfolding get_pdf_filename qualified_pdf_filename contains
  choose_filename taken index url =
      let basename = get_pdf_filename url in
      if not (contains basename taken)
      then some basename
      else elim (qualified_pdf_filename url none) [
        | none ↦ none
        | some dated ↦
            if not (contains dated taken)
            then some dated
            else elim (qualified_pdf_filename url (some (file_id_for_index index))) [
              | none ↦ none
              | some numbered ↦ if contains numbered taken then none else some numbered
            ]
      ]

  unfoldable pub plan_file : Text → List Text → ℕ → Text → Option PendingFile
  unfolding choose_filename is_official_timetable_pdf_url validate_pending_file
  plan_file snapshot_id taken index url =
      if is_official_timetable_pdf_url p url
      then elim (choose_filename taken index url) [
        | none ↦ none
        | some filename ↦
            let entry : PendingFile = record {
              file_id = file_id_for_index index;
              filename = filename;
              source_url = url;
              r2_key = snapshot_pdf_key snapshot_id filename;
            } in
            if is_valid_file p snapshot_id entry then some entry else none
      ]
      else none

  unfoldable pub plan_from_index : Text → List Text → ℕ → List Text → Option (List PendingFile)
  unfolding plan_file
  plan_from_index snapshot_id taken index [] = some []
  plan_from_index snapshot_id taken index (url ∷ urls) =
      elim (plan_file snapshot_id taken index url) [
        | none ↦ none
        | some entry ↦
            elim (plan_from_index snapshot_id (entry.filename ∷ taken) (index + 1) urls) [
              | none ↦ none
              | some entries ↦ some (entry ∷ entries)
            ]
      ]

  unfoldable pub plan_snapshot_files : Text → List Text → Option (List PendingFile)
  unfolding plan_from_index
  plan_snapshot_files snapshot_id urls = plan_from_index snapshot_id [] 0 urls

  unfoldable pub check_files :
      Text → List Text → List Text → List PendingFile → Option DescriptorError
  unfolding contains validate_pending_file
  check_files snapshot_id ids keys [] = none
  check_files snapshot_id ids keys (file ∷ files) =
      let rest = check_files snapshot_id (file.file_id ∷ ids) (file.r2_key ∷ keys) files in
      if is_valid_file p snapshot_id file
      then (if contains file.file_id ids || contains file.r2_key keys
          then some duplicate_file
          else rest)
      else some invalid_file

  unfoldable pub descriptor_file_error : PendingDescriptor → Option DescriptorError
  unfolding check_files
  descriptor_file_error d = elim d.files [
    | [] ↦ some no_files
    | file ∷ files ↦ check_files d.snapshot_id [] [] (file ∷ files)
  ]

  unfoldable pub plan_from : ℕ → PendingDescriptor → List Text → PublicationPlan
  unfolding snapshot_id_instant contains
  plan_from now d stored_ids = record {
    snapshot_id = d.snapshot_id;
    operation_id = d.operation_id;
    page_api_sha256 = d.page_api_sha256;
    created_at = d.created_at;
    expires_at = p.to_iso (
        (elim (snapshot_id_instant d.snapshot_id) [ none ↦ now | some t ↦ t ])
        + pending_max_age_ms);
    files =
        map
          (λ (file : PendingFile). record {
            file_id = file.file_id;
            filename = file.filename;
            source_url = file.source_url;
            upload_path =
                codes "/publications/" ++ (d.snapshot_id ++ (codes "/files/" ++ file.file_id));
            status = if contains file.file_id stored_ids then stored else needed;
          })
          d.files;
  }

abbrev pub own_descriptor : Text → Option Object → Option PendingDescriptor
own_descriptor snapshot_id none = none
own_descriptor snapshot_id (some o) = elim (as_descriptor o.body) [
  | none ↦ none
  | some d ↦ if text_eq d.snapshot_id snapshot_id then some d else none
]

unfoldable pub read_descriptor : Text → Proc (Option PendingDescriptor)
unfolding ◌>>=◌
read_descriptor snapshot_id = do
  o ← read (pending_descriptor_key snapshot_id)
  done (own_descriptor snapshot_id o)

abbrev pub own_operation : Text → Option Object → Option OperationRecord
own_operation operation_id none = none
own_operation operation_id (some o) = elim (as_operation o.body) [
  | none ↦ none
  | some r ↦ if text_eq r.operation_id operation_id then some r else none
]

unfoldable pub read_operation : Text → Proc (Option OperationRecord)
unfolding ◌>>=◌
read_operation operation_id = do
  o ← read (operation_key operation_id)
  done (own_operation operation_id o)

unfoldable pub stored_from : Text → List PendingFile → List Text → Proc (List Text)
unfolding ◌>>=◌
stored_from snapshot_id [] found = done found
stored_from snapshot_id (file ∷ files) found = do
  o ← read (pending_completion_key snapshot_id file.file_id)
  stored_from snapshot_id files (elim o [ none ↦ found | some _ ↦ file.file_id ∷ found ])

unfoldable pub stored_file_ids : PendingDescriptor → Proc (List Text)
unfolding stored_from
stored_file_ids d = stored_from d.snapshot_id d.files []

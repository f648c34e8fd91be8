-- ===== src/Publisher/Broker.antt =====
-- tools/md-publisher/src/broker.ts: the readers of what the broker answers, and the client. The
-- header Content-Length, which is the length of the body, is left out.
pub mod Client
pub mod Serving
pub mod Asking
use utm_curs_i_orar.Prelude.{
  ℕ, Bool, true, false, ◌&&◌, ◌||◌, not, Option, none, some, List, [], ◌∷◌, ◌++◌, ◌==◌, length,
  if◌then◌else◌,
}
use utm_curs_i_orar.Text.{Text, codes, text_eq, option_eq, to_lower}
use utm_curs_i_orar.Worker.Types.{Json, null, str, arr, obj, Items, nil, cons, Fields, end}
use utm_curs_i_orar.Worker.Pointer.{field_of, as_fields}
use utm_curs_i_orar.Worker.Instants.{is_snapshot_id}
use utm_curs_i_orar.Worker.Opening.{is_sha256_hex}
use utm_curs_i_orar.Worker.Platform.{Platform}
use utm_curs_i_orar.Publisher.Calls.{
  Failure, broker_error, other_error, Act, done, fail, call, caught, ◌>>=◌, Outcome, returned,
  raised, json, upload, JsonRequest, JsonResponse, get_method, post_method, put_method, LocalPath,
}
use utm_curs_i_orar.Publisher.Types.{
  PublisherConfig, CurrentPointerView, ManifestFileView, ManifestView, PlanFile, PlanStatus, needed,
  stored, Opened, created, resumed, PublicationPlan,
}

abbrev pub and_then : {A B : Type 0} → Outcome A → (A → Outcome B) → Outcome B
and_then (returned a) f = f a
and_then (raised e) f = raised e

abbrev pub lift : {A : Type 0} → Outcome A → Act A
lift (returned a) = done a
lift (raised e) = fail e

-- A string, even an empty one.
unfoldable pub text_or_none : Option Json → Option Text
text_or_none (some (str t)) = some t
text_or_none _ = none

-- `stringOrNull`
unfoldable pub string_or_null : Option Json → Option Text
unfolding text_or_none
string_or_null j = elim (text_or_none j) [
  | none ↦ none
  | some t ↦ if length t == 0 then none else some t
]

unfoldable pub or_fail : {A : Type 0} → Option A → Text → Outcome A
or_fail none code = raised (broker_error 200 code)
or_fail (some a) code = returned a

unfoldable pub fields_or : Text → Option Json → Outcome Fields
unfolding or_fail
fields_or code none = raised (broker_error 200 code)
fields_or code (some j) = or_fail (as_fields j) code

unfoldable pub current_of : Fields → Outcome CurrentPointerView
unfolding string_or_null text_or_none
current_of f = elim (text_or_none (field_of (codes "snapshot_id") f)) [
  | none ↦ raised (broker_error 200 (codes "current_unreadable"))
  | some id ↦
      if not (is_snapshot_id id)
      then raised (broker_error 200 (codes "current_unreadable"))
      else returned (record {
        snapshot_id = id;
        published_at = elim (string_or_null (field_of (codes "published_at") f)) [
          | some t ↦ some t
          | none ↦ string_or_null (field_of (codes "updated_at") f)
        ];
        page_modified_gmt = string_or_null (field_of (codes "page_modified_gmt") f);
      })
]

unfoldable pub digest_of : Option Text → Option Text
digest_of none = none
digest_of (some t) = if is_sha256_hex (to_lower t) then some (to_lower t) else none

unfoldable pub manifest_file_of : Fields → Outcome ManifestFileView
unfolding string_or_null text_or_none digest_of
manifest_file_of f = elim (text_or_none (field_of (codes "source_url") f)) [
  | none ↦ raised (broker_error 200 (codes "manifest_unreadable"))
  | some url ↦ returned (record {
    source_url = url;
    content_sha256 = digest_of (text_or_none (field_of (codes "content_sha256") f));
    publisher_observed_etag = string_or_null (field_of (codes "publisher_observed_etag") f);
    publisher_observed_last_modified =
        string_or_null (field_of (codes "publisher_observed_last_modified") f);
  })
]

unfoldable pub manifest_files_of : Items → Outcome (List ManifestFileView)
unfolding manifest_file_of fields_or
manifest_files_of nil = returned []
manifest_files_of (cons j js) =
    let rest = manifest_files_of js in
    and_then (fields_or (codes "manifest_unreadable") (some j)) (λ f.
      and_then (manifest_file_of f) (λ file. and_then rest (λ files. returned (file ∷ files))))

-- `manifest.source ?? {}`: the fields of anything but an object are undefined.
unfoldable pub source_of : Option Json → Fields
source_of (some (obj f)) = f
source_of _ = end

unfoldable pub items_of : Option Json → Option Items
items_of (some (arr js)) = some js
items_of _ = none

unfoldable pub manifest_of : Text → Fields → Outcome ManifestView
unfolding text_or_none string_or_null source_of items_of manifest_files_of or_fail
manifest_of id f =
    if not (option_eq (text_or_none (field_of (codes "snapshot_id") f)) id)
    then raised (broker_error 200 (codes "manifest_unreadable"))
    else let source : Fields = source_of (field_of (codes "source") f) in
      and_then (or_fail (items_of (field_of (codes "files") f)) (codes "manifest_unreadable"))
        (λ js. and_then (manifest_files_of js) (λ files. returned (record {
          snapshot_id = id;
          page_api_url = string_or_null (field_of (codes "page_api_url") source);
          page_modified_gmt = string_or_null (field_of (codes "page_modified_gmt") source);
          files = files;
        })))

unfoldable pub plan_status_of : Option Text → PlanStatus
plan_status_of t = if option_eq t (codes "stored") then stored else needed

unfoldable pub plan_file_of : Json → Outcome PlanFile
unfolding text_or_none fields_or or_fail plan_status_of
plan_file_of null = raised (other_error (codes "TypeError"))
plan_file_of j =
    let code : Text = codes "invalid_plan" in
    and_then (fields_or code (some j)) (λ f.
      and_then (or_fail (text_or_none (field_of (codes "file_id") f)) code) (λ file_id.
        and_then (or_fail (text_or_none (field_of (codes "filename") f)) code) (λ filename.
          and_then (or_fail (text_or_none (field_of (codes "source_url") f)) code) (λ url.
            and_then (or_fail (text_or_none (field_of (codes "upload_path") f)) code) (λ path.
              returned (record {
                file_id = file_id;
                filename = filename;
                source_url = url;
                upload_path = path;
                status = plan_status_of (text_or_none (field_of (codes "status") f));
              }))))))

unfoldable pub plan_files_of : Items → Outcome (List PlanFile)
unfolding plan_file_of
plan_files_of nil = returned []
plan_files_of (cons j js) =
    let rest = plan_files_of js in
    and_then (plan_file_of j) (λ file. and_then rest (λ files. returned (file ∷ files)))

unfoldable pub or_empty : Option Text → Text
or_empty none = []
or_empty (some t) = t

-- The list of the plan's files, which is not empty.
unfoldable pub some_items_of : Option Json → Option Items
some_items_of (some (arr (cons j js))) = some (cons j js)
some_items_of _ = none

unfoldable pub plan_of : Fields → Outcome PublicationPlan
unfolding text_or_none or_fail plan_files_of or_empty some_items_of
plan_of f =
    let code : Text = codes "invalid_plan" in
    and_then (or_fail (text_or_none (field_of (codes "snapshot_id") f)) code) (λ id.
      and_then (or_fail (text_or_none (field_of (codes "operation_id") f)) code) (λ operation_id.
        and_then (or_fail (some_items_of (field_of (codes "files") f)) code) (λ js.
          and_then (plan_files_of js) (λ files. returned (record {
            status =
                if option_eq (text_or_none (field_of (codes "status") f)) (codes "resumed")
                then resumed
                else created;
            snapshot_id = id;
            operation_id = operation_id;
            page_api_sha256 = or_empty (text_or_none (field_of (codes "page_api_sha256") f));
            created_at = or_empty (text_or_none (field_of (codes "created_at") f));
            expires_at = or_empty (text_or_none (field_of (codes "expires_at") f));
            files = files;
          })))))

-- The field of a parsed answer, if it is an object with that string.
unfoldable pub answer_field : Text → Option Json → Option Text
unfolding text_or_none
answer_field name (some (obj f)) = text_or_none (field_of name f)
answer_field name _ = none

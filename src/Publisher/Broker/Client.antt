-- ===== src/Publisher/Broker/Client.antt =====
-- `BrokerClient` of tools/md-publisher/src/broker.ts: its requests, and what it makes of the
-- answers.
use utm_curs_i_orar.Prelude.{
  ℕ, Bool, false, ◌&&◌, not, Option, none, some, List, [], ◌∷◌, ◌++◌, ◌==◌, length, if◌then◌else◌,
}
use utm_curs_i_orar.Text.{Text, codes, option_eq}
use utm_curs_i_orar.Worker.Instants.{is_snapshot_id}
use utm_curs_i_orar.Worker.Platform.{Platform}
use utm_curs_i_orar.Publisher.Calls.{
  Failure, broker_error, other_error, Act, done, fail, call, ◌>>=◌, Outcome, returned, raised, json,
  upload, JsonRequest, JsonResponse, get_method, post_method, put_method, LocalPath,
}
use utm_curs_i_orar.Publisher.Types.{
  PublisherConfig, CurrentPointerView, ManifestView, PublicationPlan,
}
use utm_curs_i_orar.Publisher.Broker.{
  and_then, lift, fields_or, current_of, manifest_of, plan_of, answer_field,
}

-- An answer, or the exception that the transport throws.
unfoldable pub answered : Option JsonResponse → Act JsonResponse
answered none = fail (other_error (codes "transport"))
answered (some r) = done r

unfoldable pub exchange : JsonRequest → Act JsonResponse
unfolding ◌>>=◌ answered
exchange request = do r ← call (json request); answered r

module _ (p : Platform) (config : PublisherConfig) where
  abbrev auth_headers : List (Text × Text)
  auth_headers =
      if length config.token == 0
      then []
      else (codes "Authorization", codes "Bearer " ++ config.token) ∷ []

  abbrev pub get_request : Text → JsonRequest
  get_request path = record {
    method = get_method;
    url = config.broker_url ++ path;
    headers = auth_headers;
    body = none;
  }

  -- `parseFailure`
  unfoldable pub failure_of : JsonResponse → Failure
  unfolding answer_field
  failure_of r = elim (answer_field (codes "code") (p.json_parse r.text)) [
    | none ↦ broker_error r.status (codes "unknown")
    | some code ↦ broker_error r.status code
  ]

  abbrev pub current_path : Text
  current_path = codes "/current.json"

  unfoldable pub current_answer : JsonResponse → Outcome (Option CurrentPointerView)
  unfolding failure_of current_of fields_or
  current_answer r =
      if r.status == 404
      then returned none
      else if not (r.status == 200)
      then raised (failure_of r)
      else and_then (fields_or (codes "current_unreadable") (p.json_parse r.text))
          (λ f. and_then (current_of f) (λ view. returned (some view)))

  unfoldable pub read_current_pointer : Act (Option CurrentPointerView)
  unfolding ◌>>=◌ exchange current_answer
  read_current_pointer = do r ← exchange (get_request current_path); lift (current_answer r)

  unfoldable pub manifest_answer : Text → JsonResponse → Outcome (Option ManifestView)
  unfolding failure_of manifest_of fields_or
  manifest_answer id r =
      if r.status == 404
      then returned none
      else if not (r.status == 200)
      then raised (failure_of r)
      else and_then (fields_or (codes "manifest_unreadable") (p.json_parse r.text))
          (λ f. and_then (manifest_of id f) (λ view. returned (some view)))

  abbrev pub manifest_path : Text → Text
  manifest_path id = codes "/snapshots/" ++ id ++ codes "/manifest.json"

  unfoldable pub read_manifest : Text → Act (Option ManifestView)
  unfolding ◌>>=◌ exchange manifest_answer
  read_manifest id =
      if not (is_snapshot_id id)
      then fail (broker_error 0 (codes "invalid_snapshot_id"))
      else do r ← exchange (get_request (manifest_path id)); lift (manifest_answer id r)

  unfoldable pub page_answer : JsonResponse → Outcome (Option Text)
  unfolding failure_of
  page_answer r =
      if r.status == 404
      then returned none
      else if not (r.status == 200)
      then raised (failure_of r)
      else returned (some r.text)

  abbrev pub page_path : Text → Text
  page_path id = codes "/snapshots/" ++ id ++ codes "/page-api.json"

  unfoldable pub read_snapshot_page_api : Text → Act (Option Text)
  unfolding ◌>>=◌ exchange page_answer
  read_snapshot_page_api id =
      if not (is_snapshot_id id)
      then fail (broker_error 0 (codes "invalid_snapshot_id"))
      else do r ← exchange (get_request (page_path id)); lift (page_answer r)

  unfoldable pub plan_answer : JsonResponse → Outcome PublicationPlan
  unfolding failure_of plan_of fields_or
  plan_answer r =
      if not (r.status == 200) && not (r.status == 201)
      then raised (failure_of r)
      else and_then (fields_or (codes "invalid_plan") (p.json_parse r.text)) plan_of

  abbrev pub open_request : Text → Text → Text → JsonRequest
  open_request operation_id page_bytes page_sha256 = record {
    method = post_method;
    url = config.broker_url ++ codes "/publications";
    headers =
        auth_headers
        ++ (codes "Content-Type", codes "application/json")
          ∷ (codes "X-Publication-Operation-Id", operation_id)
          ∷ (codes "X-Page-Sha256", page_sha256)
          ∷ [];
    body = some page_bytes;
  }

  unfoldable pub open_publication : Text → Text → Text → Act PublicationPlan
  unfolding ◌>>=◌ exchange plan_answer
  open_publication operation_id page_bytes page_sha256 = do
    r ← exchange (open_request operation_id page_bytes page_sha256)
    lift (plan_answer r)

  -- `getPublication`
  unfoldable pub get_publication : Text → Act PublicationPlan
  unfolding ◌>>=◌ exchange failure_of plan_of fields_or
  get_publication id = do
    r ← exchange (get_request (codes "/publications/" ++ id))
    lift (
        if not (r.status == 200)
        then raised (failure_of r)
        else and_then (fields_or (codes "invalid_plan") (p.json_parse r.text)) plan_of)

  abbrev optional_header : Text → Option Text → List (Text × Text)
  optional_header name none = []
  optional_header name (some t) = if length t == 0 then [] else (name, t) ∷ []

  unfoldable pub upload_file :
      (upload_path : Text) (file : LocalPath) (size : ℕ) (sha256 : Text)
      (observed_etag observed_last_modified : Option Text)
      → Act Bool
  unfolding ◌>>=◌ answered failure_of answer_field
  upload_file path file size sha256 etag modified = do
    a ← call (
        upload (record {
          url = config.broker_url ++ path;
          headers =
              auth_headers
              ++ ((codes "Content-Type", codes "application/pdf")
                  ∷ (codes "X-Content-Sha256", sha256)
                  ∷ [])
              ++ optional_header (codes "X-Publisher-Observed-Etag") etag
              ++ optional_header (codes "X-Publisher-Observed-Last-Modified") modified;
          file_path = file;
          size = size;
        }))
    r ← answered a
    if not (r.status == 200) && not (r.status == 201)
        then fail (failure_of r)
        else done (
            option_eq (answer_field (codes "status") (p.json_parse r.text))
              (codes "already_stored"))

  unfoldable pub complete_status : Option Text → Text
  complete_status none = codes "published"
  complete_status (some t) = t

  abbrev pub complete_path : Text → Text
  complete_path id = codes "/publications/" ++ id ++ codes "/complete"

  abbrev pub complete_request : Text → JsonRequest
  complete_request id = record {
    method = post_method;
    url = config.broker_url ++ complete_path id;
    headers = auth_headers;
    body = none;
  }

  unfoldable pub complete : Text → Act Text
  unfolding ◌>>=◌ exchange failure_of complete_status answer_field
  complete id = do
    r ← exchange (complete_request id)
    if not (r.status == 200)
        then fail (failure_of r)
        else done (complete_status (answer_field (codes "status") (p.json_parse r.text)))

  unfoldable pub was_delivered : Option JsonResponse → Bool
  was_delivered none = false
  was_delivered (some r) = r.status == 200

  -- A throwing transport is caught.
  unfoldable pub heartbeat : Text → Act Bool
  unfolding ◌>>=◌ was_delivered
  heartbeat payload = do
    a ← call (
        json (record {
          method = put_method;
          url = config.broker_url ++ codes "/publisher/heartbeat";
          headers = auth_headers ++ (codes "Content-Type", codes "application/json") ∷ [];
          body = some payload;
        }))
    done (was_delivered a)

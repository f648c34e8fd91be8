-- ===== src/Worker/Concurrent/Creating.antt =====
-- The requests whose writes are create-only without a protocol of their own: opening a publication,
-- the heartbeat, and an accepted payload.
use utm_curs_i_orar.Prelude.{
  ℕ, ◌≡◌, refl, true, not, Option, none, some, [], inl, inr, Option-cases, ◌==◌, length,
}
use utm_curs_i_orar.Text.{Text, codes, text_eq}
use utm_curs_i_orar.Worker.Keys.{publisher_heartbeat_key}
use utm_curs_i_orar.Worker.Bucket.{Proc, done, Object, ◌>>=◌}
use utm_curs_i_orar.Worker.Bucket.Rules.{
  Action, putting, streaming, deleting, sending, History, Ensures, at_done, at_get, at_put,
  at_stream, at_if, at_bind, Ensures-mono,
}
use utm_curs_i_orar.Worker.Bucket.Runs.Immutable.{is_mutable, CreatesOnly, AnyResult, IsCreateOnly}
use utm_curs_i_orar.Worker.Checked.{Checked, fine, fault}
use utm_curs_i_orar.Worker.Platform.{Platform, Env}
use utm_curs_i_orar.Worker.Requests.{
  Request, Response, content_type_is, content_length_or_null, read_body_within, exceeds, may_be,
}
use utm_curs_i_orar.Worker.Opening.{is_uuid_v4, is_sha256_hex}
use utm_curs_i_orar.Worker.Opening.Publication.{OpenPublicationInput}
use utm_curs_i_orar.Worker.Opening.Resuming.{Opens}
use utm_curs_i_orar.Worker.Opening.Attempts.{open_publication-Ensures}
use utm_curs_i_orar.Worker.Uploads.Routes.{at_publisher}
use utm_curs_i_orar.Worker.Publications.{
  max_page_api_upload_bytes, max_heartbeat_bytes, answer_open, open_with, open_body, or_empty,
  lowered, open_checked, handle_open_publication, parsed_fields, handle_publisher_heartbeat,
}
use utm_curs_i_orar.Worker.Courses.{parse_supported_course_year}
use utm_curs_i_orar.Worker.Auth.{verify_auth}
use utm_curs_i_orar.Worker.Accepted.{
  Provenance, with_course, check_provenance, is_accepted_id, is_same_payload, store_payload,
  put_payload, handle_put_accepted_payload, max_payload_bytes,
}

abbrev Creates : History → Proc Response → Type 0
Creates h m = Ensures CreatesOnly AnyResult h m

Opens-create :
    (p : Platform) (env : Env) (input : OpenPublicationInput) (h : History) (a : Action)
    → Opens p env input h a
    → CreatesOnly h a
Opens-create p env input h (putting k b w m) (create, x) = inl create
Opens-create p env input h (streaming k w m) x = absurd x
Opens-create p env input h (deleting ks) x = x
Opens-create p env input h (sending j) x = absurd x

module _ (p : Platform) (env : Env) (now : ℕ) (random : Text) where
  with-Creates :
      (h : History) (operation_id hash page_bytes : Text)
      → h ≡ []
      → Creates h (open_with p env now random operation_id hash page_bytes)
  unfolding open_with
  with-Creates h operation_id hash page_bytes e =
      let input : OpenPublicationInput = record {
        operation_id = operation_id;
        page_api_sha256 = hash;
        page_bytes = page_bytes;
        now = now;
        random = random;
      } in
      rw e (
        at_bind (λ result. done (answer_open result))
          (Ensures-mono (Opens-create p env input) (λ h' r x. at_done tt)
            (open_publication-Ensures p env input)))

  body-Creates :
      (operation_id hash : Text) (declared : Option ℕ) (body : Option Text)
      → Creates [] (open_body p env now random operation_id hash declared body)
  unfolding open_body
  body-Creates operation_id hash declared body =
      elim (Option-cases (read_body_within max_page_api_upload_bytes body)) [
        | inl large ↦ rw (large, open_body) (at_done tt)
        | inr (page, e) ↦
            rw (e, open_body)
              (at_if (length page == 0) (λ a. at_done tt)
                (λ a.
                  at_if (not (may_be (length page) declared)) (λ b. at_done tt)
                    (λ b.
                      at_if (not (text_eq (p.sha256_hex page) hash)) (λ c. at_done tt)
                        (λ c. with-Creates [] operation_id (p.sha256_hex page) page refl))))
      ]

  pub handle_open_publication-IsCreateOnly :
      (request : Request) → IsCreateOnly (handle_open_publication p env now random request)
  unfolding handle_open_publication open_checked
  handle_open_publication-IsCreateOnly request =
      at_publisher (λ h s c. tt) p env request (open_checked p env now random request) []
        (λ c auth.
          let operation_id : Text =
            or_empty p env now (request.header (codes "x-publication-operation-id")) in
          let hash : Text = lowered p env now (request.header (codes "x-page-sha256")) in
          let declared : Option ℕ =
            content_length_or_null (request.header (codes "content-length")) in
          at_if (not (is_uuid_v4 operation_id)) (λ a. at_done tt)
            (λ a.
              at_if (not (is_sha256_hex hash)) (λ b. at_done tt)
                (λ b.
                  at_if
                    (not (
                      content_type_is (codes "application/json")
                        (request.header (codes "content-type"))))
                    (λ c. at_done tt)
                    (λ c.
                      at_if (exceeds max_page_api_upload_bytes declared) (λ d. at_done tt)
                        (λ d. body-Creates operation_id hash declared request.body)))))

heartbeat-is_mutable : is_mutable publisher_heartbeat_key ≡ true
unfolding is_mutable text_eq
heartbeat-is_mutable = refl

pub handle_publisher_heartbeat-IsCreateOnly :
    (p : Platform) (env : Env) (received_at : Text) (request : Request)
    → IsCreateOnly (handle_publisher_heartbeat p env received_at request)
unfolding handle_publisher_heartbeat ◌>>=◌
handle_publisher_heartbeat-IsCreateOnly p env received_at request =
    at_publisher (λ h s c. tt) p env request _ []
      (λ c auth. elim (Option-cases (read_body_within max_heartbeat_bytes request.body)) [
        | inl large ↦ rw large (at_done tt)
        | inr (body, e) ↦ elim (Option-cases (parsed_fields (p.json_parse (p.decode body)))) [
          | inl bad ↦ rw (e, bad) (at_done tt)
          | inr (input, e') ↦ rw (e, e') (at_put (inr heartbeat-is_mutable) (λ o. at_done tt))
        ]
      ])

module _ (year : ℕ) (accepted_id : Text) where
  store-Creates :
      (h : History) (v : Provenance) (o : Option Object)
      → Creates h (store_payload year accepted_id v o)
  unfolding store_payload
  store-Creates h v none = at_stream refl (λ u. at_done tt)
  store-Creates h v (some o) = at_if (is_same_payload year v o) (λ a. at_done tt) (λ a. at_done tt)

  put-Creates :
      (body : Option Text) (checked : Checked ℕ Provenance)
      → Creates [] (put_payload year accepted_id body checked)
  unfolding put_payload ◌>>=◌
  put-Creates body (fault status) = at_done tt
  put-Creates none (fine v) = at_done tt
  put-Creates (some t) (fine v) = at_get (λ o. store-Creates _ v o)

pub handle_put_accepted_payload-IsCreateOnly :
    (p : Platform) (env : Env) (request : Request) (course accepted_id : Text)
    → IsCreateOnly (handle_put_accepted_payload p env request course accepted_id)
unfolding handle_put_accepted_payload with_course
handle_put_accepted_payload-IsCreateOnly p env request course accepted_id =
    at_if (not (verify_auth env (request.header (codes "authorization")))) (λ a. at_done tt)
      (λ a. elim (Option-cases (parse_supported_course_year course)) [
        | inl e ↦ rw (e, with_course) (at_done tt)
        | inr (year, e) ↦
            rw (e, with_course)
              (at_if (not (is_accepted_id accepted_id)) (λ b. at_done tt)
                (λ b.
                  at_if
                    (not (
                      content_type_is (codes "application/json")
                        (request.header (codes "content-type"))))
                    (λ c. at_done tt)
                    (λ c.
                      at_if
                        (exceeds max_payload_bytes
                          (content_length_or_null (request.header (codes "content-length"))))
                        (λ d. at_done tt)
                        (λ d.
                          put-Creates year accepted_id request.body
                            (check_provenance p request year)))))
      ])

-- ===== src/Worker/Uploads/Writes.antt =====
-- What an upload may write, and when, whatever the bucket answers.
use utm_curs_i_orar.Prelude.{
  ℕ, ◌≡◌, refl, true, false, Option, none, some, [], ◌∷◌, ◌⊎◌, inl, inr, Option-cases, not, ltb,
  ◌==◌, not-false,
}
use utm_curs_i_orar.Text.{Text, codes, to_lower}
use utm_curs_i_orar.Worker.Types.{PendingFile, PendingDescriptor, Body, marker}
use utm_curs_i_orar.Worker.Keys.{pending_completion_key, pending_descriptor_key}
use utm_curs_i_orar.Worker.Bucket.{Proc, Object, Cond, if_absent, Upload, written, lost, ◌>>=◌}
use utm_curs_i_orar.Worker.Bucket.Rules.{
  Action, putting, streaming, deleting, sending, Event, got, wrote, streamed, History, Ensures,
  at_done, at_get, at_put, at_stream, at_if, Happened,
}
use utm_curs_i_orar.Worker.Platform.{Platform, Env}
use utm_curs_i_orar.Worker.Instants.{snapshot_work_expired}
use utm_curs_i_orar.Worker.Jobs.{is_file_id}
use utm_curs_i_orar.Worker.Descriptors.{descriptor_file_error, own_descriptor}
use utm_curs_i_orar.Worker.Opening.{is_sha256_hex}
use utm_curs_i_orar.Worker.Requests.{
  Request, Response, failure, file_stored, file_already_stored, content_type_is,
  content_length_or_null, bounded_observation,
}
use utm_curs_i_orar.Worker.Uploads.Routes.{at_publisher, at_open_descriptor}
use utm_curs_i_orar.Worker.Uploads.{
  Declared, marker_for, upload_meta, find_file, is_same_upload, write_marker, finish_stored_file,
  after_stream, after_race, store_unless, store_file, check_size, check_upload, lowered,
  handle_upload_publication_file, max_pdf_bytes, declared_of,
}

module _ (p : Platform) (now : ℕ) (completed_at : Text) (snapshot_id file_id : Text)
    (request : Request) where
  -- The file that an upload is for: the one of that id in this snapshot's own sound descriptor,
  -- which was read inside the publication window.
  pub record IsPlanned (h : History) (d : PendingDescriptor) (file : PendingFile) : Type 0 where
    pub described :
        (o : Object) × Happened (got (pending_descriptor_key snapshot_id) (some o)) h
        × (own_descriptor snapshot_id (some o) ≡ some d)
    pub sound : descriptor_file_error p d ≡ none
    pub listed : find_file file_id d.files ≡ some file
    pub in_time : snapshot_work_expired snapshot_id now ≡ false

  -- What is declared is what the request's headers say: the hash, which is a lower-case SHA-256 in
  -- hexadecimal, the length, which is neither zero nor over the limit, and the two observed
  -- validators.
  pub record IsDeclared (declared : Declared) : Type 0 where
    pub hashed :
        (t : Text) × (request.header (codes "x-content-sha256") ≡ some t)
        × (declared.sha256 ≡ to_lower t)
    pub hexadecimal : is_sha256_hex declared.sha256 ≡ true
    pub sized :
        content_length_or_null (request.header (codes "content-length")) ≡ some declared.size
    pub some_bytes : (declared.size == 0) ≡ false
    pub within : ltb max_pdf_bytes declared.size ≡ false
    pub etag_observed :
        declared.observed_etag
        ≡ bounded_observation (request.header (codes "x-publisher-observed-etag"))
    pub last_modified_observed :
        declared.observed_last_modified
        ≡ bounded_observation (request.header (codes "x-publisher-observed-last-modified"))

  -- The object is there: this request streamed it, or one with the same source and hash was read.
  abbrev pub IsStored : History → PendingDescriptor → PendingFile → Declared → ℕ → Type 0
  IsStored h d file declared size =
      Happened (streamed file.r2_key if_absent (upload_meta d file declared) (written size)) h
      ⊎ ((o : Object) × Happened (got file.r2_key (some o)) h
          × (is_same_upload file declared o ≡ true)
          × (o.size ≡ size))

  abbrev pub WritesMarker : History → Text → Body → Cond → Type 0
  WritesMarker h k b w =
      (d : PendingDescriptor) × (file : PendingFile) × (declared : Declared) × (size : ℕ)
      × IsDeclared declared
      × IsPlanned h d file
      × IsStored h d file declared size
      × (k ≡ pending_completion_key d.snapshot_id file.file_id)
      × (b ≡ marker (marker_for completed_at d.snapshot_id file size declared))
      × (w ≡ if_absent)

  abbrev pub Stores : History → Action → Type 0
  Stores h (putting k b w m) = WritesMarker h k b w
  Stores h (streaming k w m) =
      (d : PendingDescriptor) × (file : PendingFile) × (declared : Declared) × IsDeclared declared
      × IsPlanned h d file
      × (k ≡ file.r2_key)
      × (w ≡ if_absent)
      × (m ≡ upload_meta d file declared)
      × Happened (got file.r2_key none) h
  Stores h (deleting ks) = ⊥
  Stores h (sending j) = ⊥

  -- A success answers for a marker that was written, or was there.
  abbrev pub Marked : History → Type 0
  Marked h = (k : Text) × (b : Body) × (r : Option Object) × Happened (wrote k b if_absent [] r) h

  abbrev pub Answers : History → Response → Type 0
  Answers h (file_stored id size hash) = Marked h
  Answers h (file_already_stored id size hash) = Marked h
  Answers h (failure status code) = Unit
  Answers h _ = ⊥

  grown :
      (e : Event) (h : History) (d : PendingDescriptor) (file : PendingFile)
      → IsPlanned h d file
      → IsPlanned (e ∷ h) d file
  grown e h d file v = record {
    described = (v.described.0, inr v.described.1, v.described.2);
    sound = v.sound;
    listed = v.listed;
    in_time = v.in_time;
  }

  module _ (d : PendingDescriptor) (file : PendingFile) (declared : Declared)
      (said : IsDeclared declared) where
    marker-Stores :
        (h : History) (size : ℕ) (answer : Response)
        → IsPlanned h d file
        → IsStored h d file declared size
        → ((h' : History) → Marked h' → Answers h' answer)
        → Ensures Stores Answers h (write_marker completed_at d file declared size answer)
    unfolding write_marker ◌>>=◌
    marker-Stores h size answer v s q =
        let key : Text = pending_completion_key d.snapshot_id file.file_id in
        let body : Body = marker (marker_for completed_at d.snapshot_id file size declared) in
        at_put (d, file, declared, size, said, v, s, refl, refl, refl)
          (λ r. at_done (q (wrote key body if_absent [] r ∷ h) (key, body, r, inl refl)))

    finish-Stores :
        (h : History) (o : Object)
        → IsPlanned h d file
        → Happened (got file.r2_key (some o)) h
        → Ensures Stores Answers h (finish_stored_file completed_at d file declared o)
    unfolding finish_stored_file
    finish-Stores h o v there =
        at_if (is_same_upload file declared o)
          (λ same. marker-Stores h o.size _ v (inr (o, there, same, refl)) (λ h' m. m))
          (λ other. at_done tt)

    race-Stores :
        (h : History) (o : Option Object)
        → IsPlanned h d file
        → Ensures Stores Answers (got file.r2_key o ∷ h) (after_race completed_at d file declared o)
    unfolding after_race
    race-Stores h none v = at_done tt
    race-Stores h (some o) v = finish-Stores _ o (grown _ h d file v) (inl refl)

    stream-Stores :
        (h : History) (u : Upload)
        → IsPlanned h d file
        → Happened (streamed file.r2_key if_absent (upload_meta d file declared) u) h
        → Ensures Stores Answers h (after_stream completed_at d file declared u)
    unfolding after_stream ◌>>=◌
    stream-Stores h (written size) v there = marker-Stores h size _ v (inl there) (λ h' m. m)
    stream-Stores h lost v there = at_get (λ o. race-Stores h o v)
    stream-Stores h _ v there = at_done tt

    unless-Stores :
        (h : History) (body : Option Text) (o : Option Object)
        → IsPlanned h d file
        → Ensures Stores Answers
            (got file.r2_key o ∷ h)
            (store_unless completed_at d file declared body o)
    unfolding store_unless
    unless-Stores h none none v = at_done tt
    unless-Stores h (some t) none v =
        at_stream (d, file, declared, said, grown _ h d file v, refl, refl, refl, inl refl)
          (λ u. stream-Stores _ u (grown _ _ d file (grown _ h d file v)) (inl refl))
    unless-Stores h body (some o) v = finish-Stores _ o (grown _ h d file v) (inl refl)

    store-Stores :
        (h : History) (body : Option Text)
        → IsPlanned h d file
        → Ensures Stores Answers h (store_file completed_at d file declared body)
    unfolding store_file ◌>>=◌
    store-Stores h body v = at_get (λ o. unless-Stores h body o v)

  size-Stores :
      (h : History) (hash t : Text) (route : Declared → Proc Response) (size : Option ℕ)
      → request.header (codes "x-content-sha256") ≡ some t
      → hash ≡ to_lower t
      → is_sha256_hex hash ≡ true
      → content_length_or_null (request.header (codes "content-length")) ≡ size
      → ((declared : Declared) → IsDeclared declared → Ensures Stores Answers h (route declared))
      → Ensures Stores Answers h (check_size request hash route size)
  unfolding check_size declared_of
  size-Stores h hash t route none named low hex length e = at_done tt
  size-Stores h hash t route (some size) named low hex length e =
      at_if (size == 0) (λ c. at_done tt)
        (λ c.
          at_if (ltb max_pdf_bytes size) (λ d. at_done tt)
            (λ d. e (declared_of request hash size) (record {
              hashed = (t, named, low);
              hexadecimal = hex;
              sized = length;
              some_bytes = c;
              within = d;
              etag_observed = refl;
              last_modified_observed = refl;
            })))

  hashed-Stores :
      (h : History) (route : Declared → Proc Response) (hash : Option Text)
      → request.header (codes "x-content-sha256") ≡ hash
      → is_sha256_hex (lowered hash) ≡ true
      → ((declared : Declared) → IsDeclared declared → Ensures Stores Answers h (route declared))
      → Ensures Stores Answers h (
          check_size request
            (lowered hash)
            route
            (content_length_or_null (request.header (codes "content-length"))))
  unfolding lowered is_sha256_hex
  hashed-Stores h route none named hex e = let x : false ≡ true = hex in cc
  hashed-Stores h route (some t) named hex e =
      size-Stores h (to_lower t) t route
        (content_length_or_null (request.header (codes "content-length"))) named refl hex refl e

  checked-Stores :
      (h : History) (route : Declared → Proc Response)
      → ((declared : Declared) → IsDeclared declared → Ensures Stores Answers h (route declared))
      → Ensures Stores Answers h (check_upload request route)
  unfolding check_upload
  checked-Stores h route e =
      at_if
        (not (content_type_is (codes "application/pdf") (request.header (codes "content-type"))))
        (λ a. at_done tt)
        (λ a.
          at_if (not (is_sha256_hex (lowered (request.header (codes "x-content-sha256")))))
            (λ b. at_done tt)
            (λ b.
              hashed-Stores h route (request.header (codes "x-content-sha256")) refl (not-false _ b)
                e))

  -- Whatever the bucket answers, an upload changes nothing but the object of one planned file and
  -- that file's completion marker, both create-only. It streams a body only under the key that the
  -- snapshot's own sound descriptor gives for the file id, and only when it has seen no object
  -- there, stamped with the planned source and with the hash of the request's own header, which is
  -- a lower-case SHA-256 in hexadecimal; the length in the request's header is then neither zero nor
  -- over the limit. It writes a marker, with that hash and the validators of the request's other
  -- headers, only for an object that it has just streamed, or that it has read and found to have
  -- the same source and hash. It answers with a success only after the marker was written or was
  -- already there.
  pub handle_upload_publication_file-Ensures :
      (env : Env)
      → Ensures Stores Answers []
          (handle_upload_publication_file p env now completed_at request snapshot_id file_id)
  unfolding handle_upload_publication_file
  handle_upload_publication_file-Ensures env =
      at_publisher (λ h s c. tt) p env request _ []
        (λ c auth.
          at_if (not (is_file_id file_id)) (λ bad. at_done tt)
            (λ good.
              at_open_descriptor (λ h s c. tt) p now snapshot_id _ []
                (λ o d in_time own sound. elim (Option-cases (find_file file_id d.files)) [
                  | inl unknown ↦ rw unknown (at_done tt)
                  | inr (file, listed) ↦ rw listed (
                      checked-Stores _ _ (λ declared said.
                        store-Stores d file declared said _ request.body (record {
                          described = (o, inl refl, own);
                          sound = sound;
                          listed = listed;
                          in_time = in_time;
                        })))
                ])))

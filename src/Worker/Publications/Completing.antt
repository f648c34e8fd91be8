-- ===== src/Worker/Publications/Completing.antt =====
-- What completing a publication may write, and what it reports.
use utm_curs_i_orar.Prelude.{
  ℕ, ◌≡◌, ◌≢◌, refl, true, Option, none, some, [], ◌∷◌, inl, inr, not, ◌||◌,
}
use utm_curs_i_orar.Text.{Text, codes}
use utm_curs_i_orar.Worker.Types.{
  PendingDescriptor, FinalizeResult, published, already_current, superseded, incomplete, failed,
}
use utm_curs_i_orar.Worker.Keys.{snapshot_page_api_key, pending_descriptor_key}
use utm_curs_i_orar.Worker.Bucket.{done, Object, ◌>>=◌}
use utm_curs_i_orar.Worker.Bucket.Rules.{
  Action, Event, got, History, Ensures, at_done, at_get, at_if, at_bind, Ensures-mono,
  Ensures-since, Happened,
}
use utm_curs_i_orar.Worker.Platform.{Platform, Env}
use utm_curs_i_orar.Worker.Descriptors.{own_descriptor}
use utm_curs_i_orar.Worker.Finalize.{Clock, run_finalize}
use utm_curs_i_orar.Worker.Finalize.Publishing.{Publishes, Reports, run_finalize-Ensures}
use utm_curs_i_orar.Worker.Opening.{is_uuid_v4, is_sha256_hex}
use utm_curs_i_orar.Worker.Requests.{
  Request, Response, failure, finalized, publication_incomplete, finalize_failed,
}
use utm_curs_i_orar.Worker.Auth.{authorize_publisher, authorized, Credential}
use utm_curs_i_orar.Worker.Uploads.Routes.{at_publisher, at_open_descriptor}
use utm_curs_i_orar.Worker.Publications.{
  answer_finalize, provenance_agrees, complete_open, complete_stored, handle_complete_publication,
}

module _ (p : Platform) (env : Env) (now : ℕ) (clock : Clock) (request : Request)
    (snapshot_id : Text) where
  -- The caller is a publisher, and the stored page has the operation and the hash of the
  -- snapshot's own descriptor.
  pub record IsProvenanced (h : History) : Type 0 where
    pub caller :
        (c : Credential) × (authorize_publisher p env (request.header (codes "authorization"))
          ≡ authorized c)
    pub provenance :
        (o page : Object) × (d : PendingDescriptor) × Happened
          (got (pending_descriptor_key snapshot_id) (some o))
          h
        × (own_descriptor snapshot_id (some o) ≡ some d)
        × Happened (got (snapshot_page_api_key snapshot_id) (some page)) h
        × (provenance_agrees d page ≡ true)

  abbrev pub Completes : History → Action → Type 0
  Completes h a = Publishes p clock snapshot_id h a × IsProvenanced h

  abbrev pub Answers : History → Response → Type 0
  Answers h (finalized r) = Reports p clock snapshot_id h r × IsProvenanced h
  Answers h (publication_incomplete missing) = (missing ≢ []) × IsProvenanced h
  Answers h (finalize_failed retryable) = IsProvenanced h
  Answers h (failure status code) = Unit
  Answers h _ = ⊥

  stays : (e : Event) (h : History) → IsProvenanced h → IsProvenanced (e ∷ h)
  stays e h v = record {
    caller = v.caller;
    provenance =
        let (o, page, d, there, own, stored, agrees) = v.provenance in
        (o, page, d, inr there, own, inr stored, agrees);
  }

  answered :
      (h : History) (r : FinalizeResult)
      → Reports p clock snapshot_id h r × IsProvenanced h
      → Answers h (answer_finalize r)
  unfolding answer_finalize
  answered h published x = x
  answered h already_current x = x
  answered h superseded x = x
  answered h (incomplete missing) x = x
  answered h (failed none) (r, v) = v
  answered h (failed (some retryable)) (r, v) = v

  finalize-Completes :
      (h : History)
      → IsProvenanced h
      → Ensures Completes Answers h
          (run_finalize p clock snapshot_id >>= λ r. done (answer_finalize r))
  finalize-Completes h v =
      at_bind (λ r. done (answer_finalize r))
        (Ensures-mono (λ h' a x. x) (λ h' r x. at_done (answered h' r x))
          (Ensures-since IsProvenanced stays h (run_finalize p clock snapshot_id) v
            (run_finalize-Ensures p clock snapshot_id h)))

  stored-Completes :
      (h : History) (o : Object) (d : PendingDescriptor) (page : Option Object) (c : Credential)
      → authorize_publisher p env (request.header (codes "authorization")) ≡ authorized c
      → own_descriptor snapshot_id (some o) ≡ some d
      → Ensures Completes Answers
          (got (snapshot_page_api_key snapshot_id) page
            ∷ got (pending_descriptor_key snapshot_id) (some o)
            ∷ h)
          (complete_stored p env now clock snapshot_id d page)
  unfolding complete_stored
  stored-Completes h o d none c auth own = at_done tt
  stored-Completes h o d (some page) c auth own =
      at_if (provenance_agrees d page)
        (λ agrees. finalize-Completes _ (record {
          caller = (c, auth);
          provenance = (o, page, d, inr (inl refl), own, inl refl, agrees);
        }))
        (λ foreign. at_done tt)

  -- Whatever the bucket answers, completing a publication changes nothing unless the caller is an
  -- authorised publisher, the snapshot's own descriptor was read, and the stored page carries that
  -- descriptor's operation and payload hash; then it makes only the writes that finalize may make,
  -- under finalize's conditions. It reports finalize's outcome only as finalize's calls bear it
  -- out, and an incomplete publication only with at least one missing key.
  pub handle_complete_publication-Ensures :
      Ensures Completes Answers [] (handle_complete_publication p env now clock request snapshot_id)
  unfolding handle_complete_publication complete_open ◌>>=◌
  handle_complete_publication-Ensures =
      at_publisher (λ h s c. tt) p env request _ []
        (λ c auth.
          at_open_descriptor (λ h s c. tt) p now snapshot_id _ []
            (λ o d in_time own sound.
              at_if (not (is_uuid_v4 d.operation_id) || not (is_sha256_hex d.page_api_sha256))
                (λ bad. at_done tt)
                (λ good. at_get (λ page. stored-Completes [] o d page c auth own))))

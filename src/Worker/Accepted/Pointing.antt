-- ===== src/Worker/Accepted/Pointing.antt =====
-- When the accepted pointer of a course is replaced, whatever the bucket answers.
use utm_curs_i_orar.Prelude.{
  ℕ, ◌≡◌, refl, sym, true, false, Option, none, some, [], ◌∷◌, ◌⊎◌, inl, inr, Bool-cases,
  Option-cases, not,
}
use utm_curs_i_orar.Text.{Text, codes, text_eq, nullable_eq}
use utm_curs_i_orar.Worker.Types.{AcceptedPointer, AcceptedPointerWriteRequest, accepted}
use utm_curs_i_orar.Worker.Keys.{accepted_pointer_key}
use utm_curs_i_orar.Worker.Bucket.{Object, Cond, if_absent, if_etag, ◌>>=◌}
use utm_curs_i_orar.Worker.Bucket.Rules.{
  Action, putting, streaming, deleting, sending, got, wrote, History, Ensures, at_done, at_get,
  at_put, at_if, Happened,
}
use utm_curs_i_orar.Worker.Checked.{Checked, fine, fault}
use utm_curs_i_orar.Worker.Platform.{Platform, Env}
use utm_curs_i_orar.Worker.Documents.{as_accepted}
use utm_curs_i_orar.Worker.Courses.{parse_supported_course_year}
use utm_curs_i_orar.Worker.Auth.{verify_auth}
use utm_curs_i_orar.Worker.Requests.{
  Request, Response, failure, pointer_created, pointer_updated, pointer_idempotent,
}
use utm_curs_i_orar.Worker.Accepted.{with_course}
use utm_curs_i_orar.Worker.Accepted.Pointer.{
  agrees_with_payload, swap_answer, replace_pointer, swap_accepted, with_payload, put_pointer,
  body_json, validate_pointer_request, handle_put_accepted,
}

-- The write replaces what the client expects: nothing, or the pointer that was read, at its etag.
abbrev pub Replaces : History → ℕ → Option Text → AcceptedPointer → Cond → Type 0
Replaces h year expected a w =
    ((expected ≡ none) × (w ≡ if_absent) × Happened (got (accepted_pointer_key year) none) h)
    ⊎ ((o : Object) × (existing : AcceptedPointer) × Happened
          (got (accepted_pointer_key year) (some o)) h
        × (as_accepted o.body ≡ some existing)
        × (nullable_eq (some existing.accepted_id) expected ≡ true)
        × (text_eq existing.accepted_id a.accepted_id ≡ false)
        × (w ≡ if_etag o.etag))

-- The payload that the pointer names was read, and its metadata agrees.
abbrev pub IsBacked : History → AcceptedPointer → Type 0
IsBacked h a =
    (o : Object) × Happened (got a.payload_key (some o)) h × (agrees_with_payload a o ≡ true)

module _ (p : Platform) (env : Env) (request : Request) (course : Text) where
  abbrev pub Requested : ℕ → AcceptedPointerWriteRequest → Type 0
  Requested year r =
      (parse_supported_course_year course ≡ some year)
      × (validate_pointer_request p year (body_json p request.body) ≡ fine r)

  abbrev pub Points : History → Action → Type 0
  Points h (putting k b w m) =
      (verify_auth env (request.header (codes "authorization")) ≡ true)
      × (year : ℕ) × (r : AcceptedPointerWriteRequest) × Requested year r
      × IsBacked h r.pointer
      × Replaces h year r.expected_previous_accepted_id r.pointer w
      × (k ≡ accepted_pointer_key year)
      × (b ≡ accepted r.pointer)
  Points h (streaming k w m) = ⊥
  Points h (deleting ks) = ⊥
  Points h (sending j) = ⊥

  -- The bucket confirmed the write.
  abbrev pub Confirmed : History → Text → Type 0
  Confirmed h id =
      (k : Text) × (a : AcceptedPointer) × (w : Cond) × (made : Object) × Happened
        (wrote k (accepted a) w [] (some made)) h
      × (a.accepted_id ≡ id)

  abbrev pub Answers : History → Response → Type 0
  Answers h (pointer_created id) = Confirmed h id
  Answers h (pointer_updated id) = Confirmed h id
  Answers h (pointer_idempotent id) =
      (k : Text) × (o : Object) × (existing : AcceptedPointer) × Happened (got k (some o)) h
      × (as_accepted o.body ≡ some existing)
      × (text_eq existing.accepted_id id ≡ true)
  Answers h (failure status code) = Unit
  Answers h _ = ⊥

  module _ (auth : verify_auth env (request.header (codes "authorization")) ≡ true) (year : ℕ)
      (r : AcceptedPointerWriteRequest) (asked : Requested year r) where
    answer_points :
        (h : History) (w : Cond) (o : Option Object) (made : Response)
        → (made ≡ pointer_created r.pointer.accepted_id)
          ⊎ (made ≡ pointer_updated r.pointer.accepted_id)
        → Answers
            (wrote (accepted_pointer_key year) (accepted r.pointer) w [] o ∷ h)
            (swap_answer year r.expected_previous_accepted_id r.pointer made o)
    unfolding swap_answer
    answer_points h w none made c = tt
    answer_points h w (some o) made (inl e) = rw e (_, r.pointer, w, o, inl refl, refl)
    answer_points h w (some o) made (inr e) = rw e (_, r.pointer, w, o, inl refl, refl)

    replace-Points :
        (h : History) (o : Object) (existing : AcceptedPointer)
        → IsBacked h r.pointer
        → Happened (got (accepted_pointer_key year) (some o)) h
        → as_accepted o.body ≡ some existing
        → Ensures Points Answers h
            (replace_pointer year r.expected_previous_accepted_id r.pointer o existing)
    unfolding replace_pointer ◌>>=◌
    replace-Points h o existing backed there e =
        at_if (text_eq existing.accepted_id r.pointer.accepted_id)
          (λ same. at_done (_, o, existing, there, e, same))
          (λ other.
            at_if (nullable_eq (some existing.accepted_id) r.expected_previous_accepted_id)
              (λ agreed.
                at_put
                  (
                    auth,
                    year,
                    r,
                    asked,
                    backed,
                    inr (o, existing, there, e, agreed, other, refl),
                    refl,
                    refl,
                  )
                  (λ x. at_done (answer_points h (if_etag o.etag) x _ (inr refl))))
              (λ c. at_done tt))

    first-Points :
        (h : History) (expected : Option Text)
        → r.expected_previous_accepted_id ≡ expected
        → IsBacked h r.pointer
        → Happened (got (accepted_pointer_key year) none) h
        → Ensures Points Answers h (swap_accepted year expected r.pointer none)
    unfolding swap_accepted ◌>>=◌
    first-Points h (some t) e backed there = at_done tt
    first-Points h none e backed there =
        at_put (auth, year, r, asked, backed, inl (e, refl, there), refl, refl)
          (λ x. at_done (rw (sym e) (answer_points h if_absent x _ (inl refl))))

    swap-Points :
        (h : History) (o : Option Object)
        → IsBacked h r.pointer
        → Happened (got (accepted_pointer_key year) o) h
        → Ensures Points Answers h (swap_accepted year r.expected_previous_accepted_id r.pointer o)
    unfolding swap_accepted
    swap-Points h none backed there =
        first-Points h r.expected_previous_accepted_id refl backed there
    swap-Points h (some o) backed there = elim (Option-cases (as_accepted o.body)) [
      | inl e ↦ rw (e, swap_accepted) (at_done tt)
      | inr (existing, e) ↦ rw (e, swap_accepted) (replace-Points h o existing backed there e)
    ]

    payload-Points :
        (h : History) (o : Option Object)
        → Happened (got r.pointer.payload_key o) h
        → Ensures Points Answers h (with_payload year r.expected_previous_accepted_id r.pointer o)
    unfolding with_payload ◌>>=◌
    payload-Points h none there = at_done tt
    payload-Points h (some o) there =
        at_if (agrees_with_payload r.pointer o)
          (λ agrees. at_get (λ e. swap-Points _ e (o, inr there, agrees) (inl refl)))
          (λ c. at_done tt)

  put-Points :
      verify_auth env (request.header (codes "authorization")) ≡ true
      → (year : ℕ) → parse_supported_course_year course ≡ some year
      → (checked : Checked ℕ AcceptedPointerWriteRequest)
      → validate_pointer_request p year (body_json p request.body) ≡ checked
      → Ensures Points Answers [] (put_pointer year checked)
  unfolding put_pointer ◌>>=◌
  put-Points auth year known (fault status) e = at_done tt
  put-Points auth year known (fine r) e =
      at_get (λ o. payload-Points auth year r (known, e) _ o (inl refl))

  -- Whatever the bucket answers, a request to set an accepted pointer writes at most that pointer,
  -- and only when it is authorised and valid, after it has read a payload under the key that the
  -- pointer names whose metadata agrees with the pointer field by field. It writes only over what
  -- the client expects: create-only where it expects nothing and nothing was read, and conditioned
  -- on the etag that it read where the pointer read has the expected id and another than the new
  -- one. It reports the pointer as created or updated only when the bucket confirmed that write,
  -- and as already set only when it has read a pointer with that id.
  pub handle_put_accepted-Ensures :
      Ensures Points Answers [] (handle_put_accepted p env request course)
  unfolding handle_put_accepted with_course
  handle_put_accepted-Ensures =
      elim (Bool-cases (verify_auth env (request.header (codes "authorization")))) [
        | inr refused ↦ rw (refused, not) (at_done tt)
        | inl auth ↦
            rw (auth, not)
              (elim (Option-cases (parse_supported_course_year course)) [
                | inl e ↦ rw (e, with_course) (at_done tt)
                | inr (year, known) ↦ rw (known, with_course) (put-Points auth year known _ refl)
              ])
      ]

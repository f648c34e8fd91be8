-- ===== src/Worker/Concurrent.antt =====
-- Any number of the broker's writing requests in flight at once, interleaved call by call over the
-- bucket that they share (worker/src/publication-api.ts, worker/src/accepted-handler.ts).
mod Creating
use utm_curs_i_orar.Prelude.{ℕ, ◌≡◌, refl, ap, true, false, some, List, [], inl, inr, ◌∙◌}
use utm_curs_i_orar.Text.{Text, text_eq, starts_with}
use utm_curs_i_orar.Worker.Keys.{current_key, accepted_pointer_key}
use utm_curs_i_orar.Worker.Bucket.{Proc, Object}
use utm_curs_i_orar.Worker.Bucket.Rules.{
  Action, putting, streaming, deleting, sending, History, Ensures-mono,
}
use utm_curs_i_orar.Worker.Bucket.Runs.{R2, Interleaved, idle, arrives, calls}
use utm_curs_i_orar.Worker.Bucket.Runs.Immutable.{
  is_mutable, CreatesOnly, IsCreateOnly, create_only-immutable,
}
use utm_curs_i_orar.Worker.Platform.{Platform, Env}
use utm_curs_i_orar.Worker.Requests.{Request, Response}
use utm_curs_i_orar.Worker.Finalize.{Clock}
use utm_curs_i_orar.Worker.Uploads.{handle_upload_publication_file}
use utm_curs_i_orar.Worker.Uploads.Writes.{Stores, handle_upload_publication_file-Ensures}
use utm_curs_i_orar.Worker.Publications.{
  handle_complete_publication, handle_open_publication, handle_publisher_heartbeat,
}
use utm_curs_i_orar.Worker.Accepted.{handle_put_accepted_payload}
use utm_curs_i_orar.Worker.Concurrent.Creating.{
  handle_open_publication-IsCreateOnly, handle_publisher_heartbeat-IsCreateOnly,
  handle_put_accepted_payload-IsCreateOnly,
}
use utm_curs_i_orar.Worker.Publications.Completing.{Completes, handle_complete_publication-Ensures}
use utm_curs_i_orar.Worker.Accepted.Pointer.{handle_put_accepted}
use utm_curs_i_orar.Worker.Accepted.Pointing.{Points, handle_put_accepted-Ensures}

-- Every request that writes: to open a publication, to upload a file, to complete a publication, a
-- heartbeat, to store an accepted payload, or to set an accepted pointer, with whatever environment,
-- clock and body.
pub data Invocation : Proc Response → Type 0 where
  uploads :
      (p : Platform) (now : ℕ) (completed_at snapshot_id file_id : Text) (env : Env)
      (request : Request)
      → Invocation
          (handle_upload_publication_file p env now completed_at request snapshot_id file_id)
  completes :
      (p : Platform) (env : Env) (now : ℕ) (clock : Clock) (request : Request) (snapshot_id : Text)
      → Invocation (handle_complete_publication p env now clock request snapshot_id)
  points :
      (p : Platform) (env : Env) (request : Request) (course : Text)
      → Invocation (handle_put_accepted p env request course)
  opens :
      (p : Platform) (env : Env) (now : ℕ) (random : Text) (request : Request)
      → Invocation (handle_open_publication p env now random request)
  beats :
      (p : Platform) (env : Env) (received_at : Text) (request : Request)
      → Invocation (handle_publisher_heartbeat p env received_at request)
  accepts :
      (p : Platform) (env : Env) (request : Request) (course accepted_id : Text)
      → Invocation (handle_put_accepted_payload p env request course accepted_id)

current-is_mutable : is_mutable current_key ≡ true
unfolding is_mutable text_eq
current-is_mutable = refl

accepted-is_mutable : (year : ℕ) → is_mutable (accepted_pointer_key year) ≡ true
unfolding is_mutable text_eq accepted_pointer_key starts_with
accepted-is_mutable year = refl

uploads_create :
    (p : Platform) (now : ℕ) (completed_at snapshot_id file_id : Text) (request : Request)
    (h : History) (a : Action)
    → Stores p now completed_at snapshot_id file_id request h a
    → CreatesOnly h a
uploads_create p now at id file request h (putting k b w m)
      (d, f, declared, size, said, v, s, e1, e2, e3) =
    inl e3
uploads_create p now at id file request h (streaming k w m)
      (d, f, declared, said, v, e1, e2, e3, there) =
    e2
uploads_create p now at id file request h (deleting ks) x = x
uploads_create p now at id file request h (sending j) x = absurd x

Completes-create :
    (p : Platform) (env : Env) (now : ℕ) (clock : Clock) (request : Request) (snapshot_id : Text)
    (h : History) (a : Action)
    → Completes p env now clock request snapshot_id h a
    → CreatesOnly h a
Completes-create p env now clock r id h (putting k b w m) (inl (d, es, v, e1, e2, e3), x) = inl e3
Completes-create p env now clock r id h (putting k b w m) (inr (d, es, v, c, t, e1, e2, e3), x) =
    inr (ap is_mutable e1 ∙ current-is_mutable)
Completes-create p env now clock r id h (streaming k w m) (x, y) = absurd x
Completes-create p env now clock r id h (deleting ks) (x, y) = x
Completes-create p env now clock r id h (sending j) (x, y) = absurd x

Points-create :
    (p : Platform) (env : Env) (request : Request) (course : Text) (h : History) (a : Action)
    → Points p env request course h a
    → CreatesOnly h a
Points-create p env r course h (putting k b w m) (auth, year, q, asked, backed, rep, e1, e2) =
    inr (ap is_mutable e1 ∙ accepted-is_mutable year)
Points-create p env r course h (streaming k w m) x = absurd x
Points-create p env r course h (deleting ks) x = x
Points-create p env r course h (sending j) x = absurd x

Invocation-IsCreateOnly : (m : Proc Response) → Invocation m → IsCreateOnly m
Invocation-IsCreateOnly m (uploads p now at id file env request) =
    Ensures-mono (uploads_create p now at id file request) (λ h r x. tt)
      (handle_upload_publication_file-Ensures p now at id file request env)
Invocation-IsCreateOnly m (completes p env now clock request id) =
    Ensures-mono (Completes-create p env now clock request id) (λ h r x. tt)
      (handle_complete_publication-Ensures p env now clock request id)
Invocation-IsCreateOnly m (points p env request course) =
    Ensures-mono (Points-create p env request course) (λ h r x. tt)
      (handle_put_accepted-Ensures p env request course)
Invocation-IsCreateOnly m (opens p env now random request) =
    handle_open_publication-IsCreateOnly p env now random request
Invocation-IsCreateOnly m (beats p env received_at request) =
    handle_publisher_heartbeat-IsCreateOnly p env received_at request
Invocation-IsCreateOnly m (accepts p env request course accepted_id) =
    handle_put_accepted_payload-IsCreateOnly p env request course accepted_id

module _ (r2 : R2) where
  open r2 use {State, look}

  as-IsCreateOnly :
      {pool : List (Proc Response)} {s : State} {pool' : List (Proc Response)} {s' : State}
      → Interleaved r2 Invocation pool s pool' s'
      → Interleaved r2 IsCreateOnly pool s pool' s'
  as-IsCreateOnly idle = idle
  as-IsCreateOnly (arrives m i run) = arrives m (Invocation-IsCreateOnly m i) (as-IsCreateOnly run)
  as-IsCreateOnly (calls before m after run e) = calls before m after (as-IsCreateOnly run) e

  -- However any number of the requests that write are interleaved (opening, uploading, completing,
  -- heartbeats, accepted payloads and pointers), an object at any key stays exactly as it is, unless
  -- the key is one of those that are meant to change: the current pointer, the heartbeat, an
  -- accepted pointer or a cursor of maintenance.
  pub broker-immutable :
      (j : Text) (o : Object) (s s' : State) (pool : List (Proc Response))
      → is_mutable j ≡ false
      → look s j ≡ some o
      → Interleaved r2 Invocation [] s pool s'
      → look s' j ≡ some o
  broker-immutable j o s s' pool immutable there run =
      create_only-immutable r2 j o immutable there (as-IsCreateOnly run)

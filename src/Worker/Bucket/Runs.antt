-- ===== src/Worker/Bucket/Runs.antt =====
-- What the broker relies on of R2, and the runs of handlers over it: one after the other, and any
-- number of them interleaved call by call.
pub mod Immutable
use utm_curs_i_orar.Prelude.{
  ℕ, ◌≡◌, ◌≢◌, refl, Bool, true, false, Option, none, some, List, [], ◌∷◌, ◌++◌, ◌⊎◌, All, Any, any,
  if◌then◌else◌,
}
use utm_curs_i_orar.Text.{Text, text_eq}
use utm_curs_i_orar.Worker.Types.{Body, PublicationJob}
use utm_curs_i_orar.Worker.Bucket.{
  Proc, done, get, put, stream, delete, list, send, Object, Cond, always, if_absent, if_etag, Meta,
  Upload, written, Listing, ◌>>=◌,
}

-- Whether `onlyIf` lets a write pass, given what stands at the key.
abbrev pub permitted : Cond → Option Object → Bool
permitted always o = true
permitted if_absent none = true
permitted if_absent (some o) = false
permitted (if_etag e) none = false
permitted (if_etag e) (some o) = text_eq o.etag e

-- The bucket with its documented behaviour. A state also holds what clients are sending, so that
-- how a streamed write ends is a function of it.
pub record R2 : Type 1 where
  pub State : Type 0
  pub look : State → Text → Option Object
  pub store : State → Text → Body → Cond → Meta → State × Option Object
  pub receive : State → Text → Cond → Meta → State × Upload
  pub remove : State → List Text → State
  pub enumerate : State → Text → Bool → ℕ → Option Text → Listing
  pub enqueue : State → PublicationJob → State
  pub store_refused :
      (s : State) (k : Text) (b : Body) (w : Cond) (m : Meta)
      → permitted w (look s k) ≡ false
      → store s k b w m ≡ (s, none)
  pub store_made :
      (s : State) (k : Text) (b : Body) (w : Cond) (m : Meta)
      → permitted w (look s k) ≡ true
      → (o : Object) × ((store s k b w m).1 ≡ some o)
        × (look (store s k b w m).0 k ≡ some o)
        × (o.body ≡ b)
        × (o.custom ≡ m)
  pub store_other :
      (s : State) (k j : Text) (b : Body) (w : Cond) (m : Meta)
      → k ≢ j
      → look (store s k b w m).0 j ≡ look s j
  -- A streamed write leaves the key alone unless it was permitted.
  pub receive_refused :
      (s : State) (k : Text) (w : Cond) (m : Meta)
      → permitted w (look s k) ≡ false
      → look (receive s k w m).0 k ≡ look s k
  pub receive_other :
      (s : State) (k j : Text) (w : Cond) (m : Meta) → k ≢ j → look (receive s k w m).0 j ≡ look s j
  pub enqueue_look : (s : State) (j : PublicationJob) (k : Text) → look (enqueue s j) k ≡ look s k
  pub remove_other :
      (s : State) (ks : List Text) (j : Text)
      → any (text_eq j) ks ≡ false
      → look (remove s ks) j ≡ look s j

module _ (r2 : R2) where
  open r2 use {State, look, store, receive, remove, enumerate, enqueue}

  -- A handler alone, from its first call to its result.
  unfoldable pub run : {A : Type 0} → Proc A → State → State × A
  run (done a) s = (s, a)
  run (get k c) s = run (c (look s k)) s
  run (put k b w m c) s = let (s', o) = store s k b w m in run (c o) s'
  run (stream k w m c) s = let (s', u) = receive s k w m in run (c u) s'
  run (delete ks c) s = run c (remove s ks)
  run (list p d n t c) s = run (c (enumerate s p d n t)) s
  run (send j c) s = run c (enqueue s j)

  pub run-bind :
      {A B : Type 0} (m : Proc A) (f : A → Proc B) (s : State)
      → run (m >>= f) s ≡ run (f (run m s).1) (run m s).0
  unfolding run ◌>>=◌
  run-bind (done a) f s = refl
  run-bind (get k c) f s = run-bind (c (look s k)) f s
  run-bind (put k b w m c) f s = run-bind (c (store s k b w m).1) f (store s k b w m).0
  run-bind (stream k w m c) f s = run-bind (c (receive s k w m).1) f (receive s k w m).0
  run-bind (delete ks c) f s = run-bind c f (remove s ks)
  run-bind (list p d n t c) f s = run-bind (c (enumerate s p d n t)) f s
  run-bind (send j c) f s = run-bind c f (enqueue s j)

  -- The next call of a handler.
  unfoldable pub advance : {A : Type 0} → Proc A → State → Proc A × State
  advance (done a) s = (done a, s)
  advance (get k c) s = (c (look s k), s)
  advance (put k b w m c) s = let (s', o) = store s k b w m in (c o, s')
  advance (stream k w m c) s = let (s', u) = receive s k w m in (c u, s')
  advance (delete ks c) s = (c, remove s ks)
  advance (list p d n t c) s = (c (enumerate s p d n t), s)
  advance (send j c) s = (c, enqueue s j)

  -- Several invocations in flight: any one of them makes its next call, or a new one arrives, which
  -- `Admitted` says may.
  pub data Interleaved {A : Type 0} (Admitted : Proc A → Type 0) (pool : List (Proc A)) (s : State)
      : List (Proc A) → State → Type 0 where
    idle : Interleaved Admitted pool s pool s
    arrives :
        {pool' : List (Proc A)} {s' : State} (p : Proc A)
        → Admitted p
        → Interleaved Admitted pool s pool' s'
        → Interleaved Admitted pool s (p ∷ pool') s'
    calls :
        {pool' : List (Proc A)} {s' : State} (before : List (Proc A)) (p : Proc A)
        (after : List (Proc A))
        → Interleaved Admitted pool s pool' s'
        → pool' ≡ before ++ p ∷ after
        → Interleaved Admitted pool s (before ++ (advance p s').0 ∷ after) (advance p s').1

-- ===== src/Worker/Bucket/Rules.antt =====
-- What holds of every branch of a handler: a condition on each change that it asks for, which may
-- speak of the calls before it, and a condition on its result.
use utm_curs_i_orar.Prelude.{ℕ, ◌≡◌, refl, Bool, true, false, Option, List, ◌∷◌, if◌then◌else◌, Any}
use utm_curs_i_orar.Text.{Text}
use utm_curs_i_orar.Worker.Types.{Body, PublicationJob}
use utm_curs_i_orar.Worker.Bucket.{
  Proc, done, get, put, stream, delete, list, send, ◌>>=◌, Object, Cond, Meta, Upload, Listing,
}

pub data Action : Type 0 where
  putting : Text → Body → Cond → Meta → Action
  streaming : Text → Cond → Meta → Action
  deleting : List Text → Action
  sending : PublicationJob → Action

-- A call that was made, with its answer.
pub data Event : Type 0 where
  got : Text → Option Object → Event
  wrote : Text → Body → Cond → Meta → Option Object → Event
  streamed : Text → Cond → Meta → Upload → Event
  deleted : List Text → Event
  listed : Text → Bool → ℕ → Option Text → Listing → Event
  sent : PublicationJob → Event

-- The calls of one invocation so far, the latest first.
abbrev pub History : Type 0
History = List Event

pub data Ensures {A : Type 0} (P : History → Action → Type 0) (Q : History → A → Type 0)
    : History → Proc A → Type 0 where
  at_done : {h : History} {a : A} → Q h a → Ensures P Q h (done a)
  at_get :
      {h : History} {k : Text} {c : Option Object → Proc A}
      → ((o : Option Object) → Ensures P Q (got k o ∷ h) (c o))
      → Ensures P Q h (get k c)
  at_put :
      {h : History} {k : Text} {b : Body} {w : Cond} {m : Meta} {c : Option Object → Proc A}
      → P h (putting k b w m)
      → ((o : Option Object) → Ensures P Q (wrote k b w m o ∷ h) (c o))
      → Ensures P Q h (put k b w m c)
  at_stream :
      {h : History} {k : Text} {w : Cond} {m : Meta} {c : Upload → Proc A}
      → P h (streaming k w m)
      → ((u : Upload) → Ensures P Q (streamed k w m u ∷ h) (c u))
      → Ensures P Q h (stream k w m c)
  at_delete :
      {h : History} {ks : List Text} {c : Proc A}
      → P h (deleting ks)
      → Ensures P Q (deleted ks ∷ h) c
      → Ensures P Q h (delete ks c)
  at_list :
      {h : History} {p : Text} {d : Bool} {n : ℕ} {t : Option Text} {c : Listing → Proc A}
      → ((l : Listing) → Ensures P Q (listed p d n t l ∷ h) (c l))
      → Ensures P Q h (list p d n t c)
  at_send :
      {h : History} {j : PublicationJob} {c : Proc A}
      → P h (sending j)
      → Ensures P Q (sent j ∷ h) c
      → Ensures P Q h (send j c)

module _ {A : Type 0} {P : History → Action → Type 0} {Q : History → A → Type 0} where
  pub at_if :
      {h : History} (b : Bool) {x y : Proc A}
      → (b ≡ true → Ensures P Q h x)
      → (b ≡ false → Ensures P Q h y)
      → Ensures P Q h (if b then x else y)
  at_if true ex ey = ex refl
  at_if false ex ey = ey refl

module _ {A B : Type 0} {P : History → Action → Type 0} {Q : History → B → Type 0} where
  pub at_bind :
      (f : A → Proc B) {h : History} {m : Proc A}
      → Ensures P (λ h' a. Ensures P Q h' (f a)) h m
      → Ensures P Q h (m >>= f)
  unfolding ◌>>=◌
  at_bind f (at_done e) = e
  at_bind f (at_get e) = at_get (λ o. at_bind f (e o))
  at_bind f (at_put p e) = at_put p (λ o. at_bind f (e o))
  at_bind f (at_stream p e) = at_stream p (λ u. at_bind f (e u))
  at_bind f (at_delete p e) = at_delete p (at_bind f e)
  at_bind f (at_list e) = at_list (λ l. at_bind f (e l))
  at_bind f (at_send p e) = at_send p (at_bind f e)

-- The conditions may be weakened.
module _ {A : Type 0} {P P' : History → Action → Type 0} {Q Q' : History → A → Type 0}
    (weaker_P : (h : History) (a : Action) → P h a → P' h a)
    (weaker_Q : (h : History) (a : A) → Q h a → Q' h a) where
  pub Ensures-mono : {h : History} {m : Proc A} → Ensures P Q h m → Ensures P' Q' h m
  Ensures-mono {h} (at_done {a} q) = at_done (weaker_Q h a q)
  Ensures-mono (at_get e) = at_get (λ o. Ensures-mono (e o))
  Ensures-mono {h} (at_put p e) = at_put (weaker_P h _ p) (λ o. Ensures-mono (e o))
  Ensures-mono {h} (at_stream p e) = at_stream (weaker_P h _ p) (λ u. Ensures-mono (e u))
  Ensures-mono {h} (at_delete p e) = at_delete (weaker_P h _ p) (Ensures-mono e)
  Ensures-mono (at_list e) = at_list (λ l. Ensures-mono (e l))
  Ensures-mono {h} (at_send p e) = at_send (weaker_P h _ p) (Ensures-mono e)

-- An event took place.
abbrev pub Happened : Event → History → Type 0
Happened e h = Any (λ x. x ≡ e) h

-- What held of the calls before a handler, and stays true of more calls, may be added.
module _ {A : Type 0} {P : History → Action → Type 0} {Q : History → A → Type 0}
    (K : History → Type 0) (stays : (e : Event) (h : History) → K h → K (e ∷ h)) where
  pub Ensures-since :
      (h : History) (m : Proc A)
      → K h
      → Ensures P Q h m
      → Ensures (λ h' a. P h' a × K h') (λ h' a. Q h' a × K h') h m
  Ensures-since h (done a) k (at_done q) = at_done (q, k)
  Ensures-since h (get j c) k (at_get e) =
      at_get (λ o. Ensures-since (got j o ∷ h) (c o) (stays _ h k) (e o))
  Ensures-since h (put j b w m c) k (at_put p e) =
      at_put (p, k) (λ o. Ensures-since (wrote j b w m o ∷ h) (c o) (stays _ h k) (e o))
  Ensures-since h (stream j w m c) k (at_stream p e) =
      at_stream (p, k) (λ u. Ensures-since (streamed j w m u ∷ h) (c u) (stays _ h k) (e u))
  Ensures-since h (delete ks c) k (at_delete p e) =
      at_delete (p, k) (Ensures-since (deleted ks ∷ h) c (stays _ h k) e)
  Ensures-since h (list p d n t c) k (at_list e) =
      at_list (λ l. Ensures-since (listed p d n t l ∷ h) (c l) (stays _ h k) (e l))
  Ensures-since h (send j c) k (at_send p e) =
      at_send (p, k) (Ensures-since (sent j ∷ h) c (stays _ h k) e)

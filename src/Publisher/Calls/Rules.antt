-- ===== src/Publisher/Calls/Rules.antt =====
-- What holds of every branch of a run of the publisher: a condition on each call, which may speak
-- of the calls before it, and a condition on how it ends.
use utm_curs_i_orar.Prelude.{◌≡◌, refl, Bool, true, false, List, ◌∷◌, if◌then◌else◌, Any}
use utm_curs_i_orar.Publisher.Calls.{
  Failure, Call, Answer, Act, done, fail, ask, ◌>>=◌, Outcome, returned, raised, caught, settled,
  other_error, get, json, upload, read_file, write_file, remove, clock, new_operation_id,
}
use utm_curs_i_orar.Text.{codes}

-- A call that was made, with its answer.
abbrev pub Event : Type 0
Event = (c : Call) × Answer c

-- The calls so far, the latest first.
abbrev pub History : Type 0
History = List Event

pub data Ensures {A : Type 0} (P : History → Call → Type 0) (Q : History → Outcome A → Type 0)
    : History → Act A → Type 0 where
  at_done : {h : History} {a : A} → Q h (returned a) → Ensures P Q h (done a)
  at_fail : {h : History} {e : Failure} → Q h (raised e) → Ensures P Q h (fail e)
  at_ask :
      {h : History} {c : Call} {k : Answer c → Act A}
      → P h c
      → ((a : Answer c) → Ensures P Q ((c, a) ∷ h) (k a))
      → Ensures P Q h (ask c k)

module _ {A : Type 0} {P : History → Call → Type 0} {Q : History → Outcome A → Type 0} where
  pub at_if :
      {h : History} (b : Bool) {x y : Act A}
      → (b ≡ true → Ensures P Q h x)
      → (b ≡ false → Ensures P Q h y)
      → Ensures P Q h (if b then x else y)
  at_if true ex ey = ex refl
  at_if false ex ey = ey refl

-- What must hold after a first part, for the whole to end well.
abbrev pub Continues :
    {A B : Type 0}
    → (History → Call → Type 0)
    → (History → Outcome B → Type 0)
    → (A → Act B)
    → History
    → Outcome A
    → Type 0
Continues P Q f h (returned a) = Ensures P Q h (f a)
Continues P Q f h (raised e) = Q h (raised e)

module _ {A B : Type 0} {P : History → Call → Type 0} {Q : History → Outcome B → Type 0} where
  pub at_bind :
      (f : A → Act B) {h : History} {m : Act A}
      → Ensures P (Continues P Q f) h m
      → Ensures P Q h (m >>= f)
  unfolding ◌>>=◌
  at_bind f (at_done e) = e
  at_bind f (at_fail e) = at_fail e
  at_bind f (at_ask p e) = at_ask p (λ a. at_bind f (e a))

module _ {B : Type 0} {P : History → Call → Type 0} {Q : History → Outcome B → Type 0} where
  -- What follows a write or a removal, which ends there when the file system refuses it.
  pub at_settled :
      (f : Unit {0} → Act B) {h : History} (a : Bool)
      → (a ≡ false → Q h (raised (other_error (codes "file system"))))
      → (a ≡ true → Ensures P Q h (f tt))
      → Ensures P Q h (settled a >>= f)
  unfolding ◌>>=◌
  at_settled f true refused e = e refl
  at_settled f false refused e = at_fail (refused refl)

-- A write or a removal that the file system refused.
abbrev pub IsRefused : Event → Type 0
IsRefused (write_file path contents, a) = a ≡ false
IsRefused (remove path, a) = a ≡ false
IsRefused (get url etag modified, a) = ⊥
IsRefused (json r, a) = ⊥
IsRefused (upload u, a) = ⊥
IsRefused (read_file path, a) = ⊥
IsRefused (clock, a) = ⊥
IsRefused (new_operation_id, a) = ⊥

abbrev pub HasRefused : History → Type 0
HasRefused h = Any IsRefused h

-- No condition on how a part ends.
abbrev pub Anything : {A : Type 0} → History → Outcome A → Type 0
Anything h o = Unit

module _ {P : History → Call → Type 0} where
  pub settled-Anything : {h : History} (a : Bool) → Ensures P Anything h (settled a)
  settled-Anything true = at_done tt
  settled-Anything false = at_fail tt

  next_of :
      {A B : Type 0} (f : A → Act B)
      → ((h : History) (a : A) → Ensures P Anything h (f a))
      → (h : History) (o : Outcome A) → Unit {0}
      → Continues P Anything f h o
  next_of f k h (returned a) x = k h a
  next_of f k h (raised e) x = tt

  widened :
      {A B : Type 0} (f : A → Act B)
      → ((h : History) (a : A) → Ensures P Anything h (f a))
      → {h : History} {m : Act A} → Ensures P Anything h m
      → Ensures P (Continues P Anything f) h m
  widened f k {h} (at_done {a} q) = at_done (next_of f k h (returned a) tt)
  widened f k {h} (at_fail {e} q) = at_fail tt
  widened f k (at_ask p e) = at_ask p (λ a. widened f k (e a))

  pub at_then :
      {A B : Type 0} {h : History} {m : Act A} (f : A → Act B)
      → Ensures P Anything h m
      → ((h' : History) (a : A) → Ensures P Anything h' (f a))
      → Ensures P Anything h (m >>= f)
  at_then {A} {B} f e k = at_bind f (widened f k e)

module _ {A : Type 0} {P : History → Call → Type 0}
    {Q : History → Outcome (Outcome A) → Type 0} where
  pub at_caught :
      {h : History} {m : Act A}
      → Ensures P (λ h' o. Q h' (returned o)) h m
      → Ensures P Q h (caught m)
  unfolding caught
  at_caught (at_done e) = at_done e
  at_caught (at_fail e) = at_done e
  at_caught (at_ask p e) = at_ask p (λ a. at_caught (e a))

module _ {A : Type 0} {P P' : History → Call → Type 0} {Q Q' : History → Outcome A → Type 0}
    (weaker_P : (h : History) (c : Call) → P h c → P' h c)
    (weaker_Q : (h : History) (o : Outcome A) → Q h o → Q' h o) where
  pub Ensures-mono : {h : History} {m : Act A} → Ensures P Q h m → Ensures P' Q' h m
  Ensures-mono {h} (at_done {a} q) = at_done (weaker_Q h (returned a) q)
  Ensures-mono {h} (at_fail {e} q) = at_fail (weaker_Q h (raised e) q)
  Ensures-mono {h} (at_ask {c} p e) = at_ask (weaker_P h c p) (λ a. Ensures-mono (e a))

-- What held of the calls before a part, and is kept by each call that it makes, holds at its end.
module _ {A : Type 0} {P : History → Call → Type 0} {Q : History → Outcome A → Type 0}
    (K : History → Type 0)
    (kept : (h : History) (c : Call) (a : Answer c) → P h c → K h → K ((c, a) ∷ h)) where
  pub Ensures-since :
      (h : History) (m : Act A)
      → K h
      → Ensures P Q h m
      → Ensures (λ h' c. P h' c × K h') (λ h' o. Q h' o × K h') h m
  Ensures-since h (done a) k (at_done q) = at_done (q, k)
  Ensures-since h (fail e) k (at_fail q) = at_fail (q, k)
  Ensures-since h (ask c f) k (at_ask p e) =
      at_ask (p, k) (λ a. Ensures-since ((c, a) ∷ h) (f a) (kept h c a p k) (e a))

-- An event took place.
abbrev pub Happened : Event → History → Type 0
Happened e h = Any (λ x. x ≡ e) h

-- Two conditions on the same run.
pub Ensures-both :
    {A : Type 0} {P P' : History → Call → Type 0} {Q Q' : History → Outcome A → Type 0}
    (h : History) (m : Act A)
    → Ensures P Q h m
    → Ensures P' Q' h m
    → Ensures (λ h' c. P h' c × P' h' c) (λ h' o. Q h' o × Q' h' o) h m
Ensures-both h (done a) (at_done q) (at_done q') = at_done (q, q')
Ensures-both h (fail e) (at_fail q) (at_fail q') = at_fail (q, q')
Ensures-both h (ask c k) (at_ask p e) (at_ask p' e') =
    at_ask (p, p') (λ a. Ensures-both ((c, a) ∷ h) (k a) (e a) (e' a))

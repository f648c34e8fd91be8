-- ===== src/Worker/Queue/Interrupted.antt =====
-- What a job that a call of the platform interrupts may still do: the `try` of `queue` in
-- worker/src/index.ts.
use utm_curs_i_orar.Prelude.{ℕ, zero, suc, ◌+◌, ◌≡◌, Option, none, some, length, arith}
use utm_curs_i_orar.Worker.Bucket.{Proc}
use utm_curs_i_orar.Worker.Bucket.Rules.{
  Action, History, Ensures, at_done, at_get, at_put, at_stream, at_delete, at_list, at_send,
}
use utm_curs_i_orar.Worker.Queue.{interrupted}

module _ {A : Type 0} (P : History → Action → Type 0) (Q : History → A → Type 0) (calls : ℕ) where
  -- The exception came with the last of so many calls; or the job ended as it does by itself.
  abbrev pub Ends : History → Option A → Type 0
  Ends h none = length h ≡ calls
  Ends h (some a) = Q h a

  pub interrupted-Ensures :
      (n : ℕ) {h : History} {m : Proc A}
      → calls ≡ suc n + length h
      → Ensures P Q h m
      → Ensures P Ends h (interrupted n m)
  unfolding interrupted
  interrupted-Ensures n k (at_done q) = at_done q
  interrupted-Ensures zero k (at_get e) = at_get (λ o. at_done (omega (arith, k)))
  interrupted-Ensures zero k (at_put p e) = at_put p (λ o. at_done (omega (arith, k)))
  interrupted-Ensures zero k (at_stream p e) = at_stream p (λ u. at_done (omega (arith, k)))
  interrupted-Ensures zero k (at_delete p e) = at_delete p (at_done (omega (arith, k)))
  interrupted-Ensures zero k (at_list e) = at_list (λ l. at_done (omega (arith, k)))
  interrupted-Ensures zero k (at_send p e) = at_send p (at_done (omega (arith, k)))
  interrupted-Ensures (suc n) k (at_get e) =
      at_get (λ o. interrupted-Ensures n (omega (arith, k)) (e o))
  interrupted-Ensures (suc n) k (at_put p e) =
      at_put p (λ o. interrupted-Ensures n (omega (arith, k)) (e o))
  interrupted-Ensures (suc n) k (at_stream p e) =
      at_stream p (λ u. interrupted-Ensures n (omega (arith, k)) (e u))
  interrupted-Ensures (suc n) k (at_delete p e) =
      at_delete p (interrupted-Ensures n (omega (arith, k)) e)
  interrupted-Ensures (suc n) k (at_list e) =
      at_list (λ l. interrupted-Ensures n (omega (arith, k)) (e l))
  interrupted-Ensures (suc n) k (at_send p e) =
      at_send p (interrupted-Ensures n (omega (arith, k)) e)

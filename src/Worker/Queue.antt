-- ===== src/Worker/Queue.antt =====
-- The queue consumer and the cron producer of worker/src/index.ts, one message per invocation.
pub mod Interrupted
pub mod Acknowledging
use utm_curs_i_orar.Prelude.{ℕ, zero, suc, Bool, true, false, Option, none, some}
use utm_curs_i_orar.Text.{Text}
use utm_curs_i_orar.Worker.Types.{
  Json, PublicationJob, finalize, reconcile, FinalizeResult, published, already_current, superseded,
  incomplete, failed, ReconcileResult, reconciled, reconcile_failed,
}
use utm_curs_i_orar.Worker.Bucket.{Proc, done, get, put, stream, delete, list, send, ◌>>=◌}
use utm_curs_i_orar.Worker.Checked.{Checked, fine, fault}
use utm_curs_i_orar.Worker.Platform.{Platform}
use utm_curs_i_orar.Worker.Jobs.{JobError, validate_job}
use utm_curs_i_orar.Worker.Finalize.{Clock, run_finalize}
use utm_curs_i_orar.Worker.Maintenance.Reconcile.{run_reconcile}

-- What becomes of the message: `ack`, or `retry` after the delay.
pub data Verdict : Type 0 where
  ack retry : Verdict

unfoldable pub after_finalize : FinalizeResult → Verdict
after_finalize (failed (some true)) = retry
after_finalize (failed (some false)) = ack
after_finalize (failed none) = ack
after_finalize published = ack
after_finalize already_current = ack
after_finalize superseded = ack
after_finalize (incomplete missing) = ack

-- none is an exception of the sweep, which the consumer catches; an error result is retryable.
unfoldable pub after_reconcile : Option ReconcileResult → Verdict
after_reconcile none = retry
after_reconcile (some reconcile_failed) = retry
after_reconcile (some (reconciled examined requeued)) = ack

-- A job of which the next call after n others throws; none is the exception. The call that throws
-- was asked for, and may or may not have taken effect.
-- `runReconcile` catches what its first scan throws and reports a retryable error, after which the
-- consumer does the same.
unfoldable pub interrupted : {A : Type 0} → ℕ → Proc A → Proc (Option A)
interrupted n (done a) = done (some a)
interrupted zero (get k c) = get k (λ o. done none)
interrupted zero (put k b w m c) = put k b w m (λ o. done none)
interrupted zero (stream k w m c) = stream k w m (λ u. done none)
interrupted zero (delete ks c) = delete ks (done none)
interrupted zero (list p d n t c) = list p d n t (λ l. done none)
interrupted zero (send j c) = send j (done none)
interrupted (suc n) (get k c) = get k (λ o. interrupted n (c o))
interrupted (suc n) (put k b w m c) = put k b w m (λ o. interrupted n (c o))
interrupted (suc n) (stream k w m c) = stream k w m (λ u. interrupted n (c u))
interrupted (suc n) (delete ks c) = delete ks (interrupted n c)
interrupted (suc n) (list p d l t c) = list p d l t (λ x. interrupted n (c x))
interrupted (suc n) (send j c) = send j (interrupted n c)

-- The `catch` of the consumer: whatever threw, the message is delivered again.
unfoldable pub unless_thrown : {A : Type 0} → (A → Verdict) → Option A → Verdict
unless_thrown after none = retry
unless_thrown after (some r) = after r

-- `fails_at` is how many calls answer before one throws.
module _ (p : Platform) (clock : Clock) (now fails_at : ℕ) where
  unfoldable pub consume_job : Checked JobError PublicationJob → Proc Verdict
  unfolding ◌>>=◌ after_finalize after_reconcile run_finalize run_reconcile interrupted
      unless_thrown
  consume_job (fault e) = done ack
  consume_job (fine (finalize id)) = do
    r ← interrupted fails_at (run_finalize p clock id)
    done (unless_thrown after_finalize r)
  consume_job (fine reconcile) = do
    r ← interrupted fails_at (run_reconcile now p)
    done (unless_thrown after_reconcile r)

  unfoldable pub consume : Json → Proc Verdict
  unfolding consume_job validate_job
  consume body = consume_job (validate_job body)

unfoldable pub scheduled : Proc (Unit {0})
scheduled = send reconcile (done tt)

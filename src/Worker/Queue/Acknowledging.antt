-- ===== src/Worker/Queue/Acknowledging.antt =====
-- What consuming a message may do, and when it is delivered again.
use utm_curs_i_orar.Prelude.{ℕ, suc, ◌≡◌, some, [], ◌⊎◌, length}
use utm_curs_i_orar.Text.{Text}
use utm_curs_i_orar.Worker.Types.{Json, finalize, reconcile, FinalizeResult, reconciled}
use utm_curs_i_orar.Worker.Bucket.Rules.{Action, History}
use utm_curs_i_orar.Worker.Checked.{Checked, fine, fault}
use utm_curs_i_orar.Worker.Platform.{Platform}
use utm_curs_i_orar.Worker.Jobs.{JobError, validate_job}
use utm_curs_i_orar.Worker.Finalize.{Clock}
use utm_curs_i_orar.Worker.Finalize.Publishing
use utm_curs_i_orar.Worker.Maintenance.Reconcile.Requeuing
use utm_curs_i_orar.Worker.Queue.{Verdict, ack, retry}

module _ (p : Platform) (clock : Clock) (now fails_at : ℕ) (body : Json) where
  -- A change is one that the job of the message may make.
  abbrev pub Executes : History → Action → Type 0
  Executes h a =
      ((id : Text) × (validate_job body ≡ fine (finalize id)) × Publishing.Publishes p clock id h a)
      ⊎ ((validate_job body ≡ fine reconcile) × Requeuing.Repairs p now h a)

  -- A job is delivered again when a call of it threw, which was the last it made; a finalize then
  -- only.
  abbrev pub Decides : History → Verdict → Type 0
  Decides h retry =
      ((id : Text) × (validate_job body ≡ fine (finalize id)) × (length h ≡ suc fails_at))
      ⊎ (validate_job body ≡ fine reconcile)
  Decides h ack =
      ((e : JobError) × (validate_job body ≡ fault e) × (h ≡ []))
      ⊎ ((id : Text) × (r : FinalizeResult) × (validate_job body ≡ fine (finalize id))
          × Publishing.Reports p clock id h r)
      ⊎ ((examined requeued : ℕ) × (validate_job body ≡ fine reconcile)
          × Requeuing.Reports p now h (some (reconciled examined requeued)))

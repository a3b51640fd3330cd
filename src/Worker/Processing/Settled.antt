-- ===== src/Worker/Processing/Settled.antt =====
-- How `processJob` of src/classes/worker.ts ends.
use bullmq.Shared.{
  ℕ, zero, suc, ◌+◌, ===_refl, Bool, true, false, Outcome, Outcome-cases, inl, inr, Bool-cases,
  delete, has, keys, has-keys, get-delete, ◌≡◌, refl, ◌∙◌, arith, String, Dict,
}
use bullmq.LockManager
use bullmq.LockManager.{LockManager, Tracked}
use bullmq.Worker.Retrying.{
  WorkerError, Flags, Ended, gives, swallows, rethrows, goes_on, retry_if_failed,
}
use bullmq.Worker.Processing.{ActiveJob, Session, Context, NextJob, retry, retry_options, flags}
use bullmq.Worker.Processing.Handlers.{process_job, catch_error, caught}

abbrev pub is_rethrown : {E A : Type 0} → Ended E A → Bool
is_rethrown (rethrows e) = true
is_rethrown _ = false

-- Without a limit on the retries, errors that are only emitted are not thrown.
retry_if_failed-rethrown :
    {E A S : Type 0} (is_not_connection : E → Bool) (flags : S → Flags) (fuel retry delay : ℕ)
    (fn : S → Outcome E A × S) (s : S)
    → is_rethrown
        (retry_if_failed is_not_connection flags fuel retry fn (retry_options delay true) s).ended
      ≡ false
unfolding retry_if_failed
retry_if_failed-rethrown is_not_connection flags zero retry delay fn s = refl
retry_if_failed-rethrown is_not_connection flags (suc fuel) retry delay fn s =
    elim (Outcome-cases (fn s).0) [
      | inl (a, e) ↦ rw (e, retry_if_failed) refl
      | inr (x, e) ↦ elim (Bool-cases (is_not_connection x)) [
        | inl permanent ↦ rw (e, permanent, retry_if_failed) refl
        | inr transient ↦
            rw (e, transient, retry_if_failed)
              (retry_if_failed-rethrown is_not_connection flags fuel (retry + 1) delay fn (fn s).1)
      ]
    ]

has-keys-delete : (k : String) (m : Dict Tracked) → has (keys (delete k m)) k ≡ false
has-keys-delete k m = has-keys k (delete k m) ∙ ground (arith, get-delete k k m, ===_refl k)

module _ {B R : Type 0} (c : Context B R) where
  catch_error-rethrown :
      (e : WorkerError) (job : ActiveJob) (callback : Bool) (s : Session B)
      → is_rethrown (catch_error c e job callback s).0 ≡ false
  unfolding catch_error
  catch_error-rethrown e job callback s =
      retry_if_failed-rethrown _ flags c.fuel 0 c.run_retry_delay _ s

  caught-rethrown :
      (job : ActiveJob) (callback : Bool) (r : Ended WorkerError NextJob × Session B)
      → is_rethrown (caught c job callback r).0 ≡ false
  caught-rethrown job callback (gives n, s) = refl
  caught-rethrown job callback (swallows, s) = refl
  caught-rethrown job callback (goes_on, s) = refl
  caught-rethrown job callback (rethrows e, s) = catch_error-rethrown e job callback s

  -- However the processor, the job's moves and the backend answer, `processJob` does not throw, and
  -- when it is over the lock manager no longer tracks the job.
  pub process_job-settles :
      (processor : ActiveJob → Session B → Outcome WorkerError R × Session B) (job : ActiveJob)
      (callback : Bool) (s : Session B)
      → let (ended, s') = process_job c processor job callback s in
        (is_rethrown ended ≡ false) × (has (keys s'.locks.tracked) job.id ≡ false)
  unfolding process_job LockManager.untrack_job
  process_job-settles processor job callback s =
      (caught-rethrown job callback _, has-keys-delete job.id _)

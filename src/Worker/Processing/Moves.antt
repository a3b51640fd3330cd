-- ===== src/Worker/Processing/Moves.antt =====
-- `processJob` of src/classes/worker.ts over `moveToFailed` of src/classes/job.ts: what becomes of
-- a job that fails, or that must not be processed.
use bullmq.Shared.{
  ℕ, suc, ◌===◌, ◌&&◌, ◌≡◌, refl, sym, ap, ◌∙◌, subst, Bool, true, false, List, [], ◌∷◌, ◌++◌,
  Option, none, some, String, is_given, ◌<◌, ◌⊎◌, inl, inr, Fraction, Outcome, returns, throws,
  arith, pos,
}
use bullmq.Job.{Job}
use bullmq.Job.Failing.{
  CustomStrategy, Call, move_to_failed, Reply, Failure, Thrown, fail_job, update_stacktrace,
  carry_out, call_for, is_unrecoverable,
}
use bullmq.Job.Failing.Attempts.{fail_job_spent, carry_out_calls}
use bullmq.LockManager
use bullmq.Worker.Retrying.{WorkerError, Ended, gives, rethrows, retry_if_failed}
use bullmq.Worker.Processing.{
  ActiveJob, Fetched, failed, Session, Backend, Context, NextJob, no_job, emit, may_fetch, is_moved,
  get_unrecoverable_error_message, unrecoverable_error, retry,
}
use bullmq.Worker.Processing.Handlers.{
  settle, handle_failed, catch_error, caught, try_process, process_job, untracked,
}

-- The stored job, and the calls that were made for it.
pub record Store : Type 0 where
  pub job : Job
  pub calls : List Call

-- What `moveToFailed` needs besides: the custom strategy, the time, a value of `Math.random()`, the
-- answers of the backend, and what an error of theirs is for the worker.
pub record Setting : Type 0 where
  pub custom : Option CustomStrategy
  pub now : ℕ
  pub random : Fraction
  pub answers : Call → Outcome String (Reply Fetched)
  pub thrown : Thrown → WorkerError

unfoldable pub failure : Setting → WorkerError → String → Bool → Failure Fetched
failure x e token fetch = record {
  error = e.error;
  now = x.now;
  random = x.random;
  token = token;
  fetch_next = fetch;
  backend = x.answers;
}

abbrev outcome : Setting → Outcome Thrown (Option Fetched) → Outcome WorkerError (Option Fetched)
outcome x (returns next) = returns next
outcome x (throws e) = throws (x.thrown e)

-- The store after `moveToFailed`.
unfoldable pub store_failed : Setting → WorkerError → String → Bool → Store → Store
unfolding failure
store_failed x e token fetch w =
    let m = fail_job x.custom (failure x e token fetch) w.job in
    record { job = m.job; calls = w.calls ++ m.calls }

-- A backend whose `moveToFailed` is that of the job.
unfoldable pub over_job : {R : Type 0} → Setting → Backend Store R → Backend Store R
unfolding store_failed
over_job x base = record base {
  move_to_failed = λ job e token fetch w. (
    outcome x (fail_job x.custom (failure x e token fetch) w.job).result,
    store_failed x e token fetch w,
  );
}

-- The job must not be processed, for the reason of the message: a failure that was deferred, or,
-- without one, more starts than the limit, where one of 0 is none.
abbrev pub IsDeferred : ActiveJob → String → Type 0
IsDeferred job message = (job.deferred_failure ≡ some message) × ((message === "") ≡ false)

abbrev pub IsStartedTooOften : Option ℕ → ActiveJob → String → Type 0
IsStartedTooOften limit job message =
    (is_given job.deferred_failure ≡ false)
    × ((m : ℕ) × (limit ≡ some m) × (0 < m) × (m < job.attempts_started))
    × (message ≡ "job started more than allowable limit")

unrecoverable-message :
    (limit : Option ℕ) (job : ActiveJob) (message : String)
    → IsDeferred job message ⊎ IsStartedTooOften limit job message
    → get_unrecoverable_error_message limit job ≡ some message
unfolding get_unrecoverable_error_message
unrecoverable-message limit job message (inl (d, n)) = rw d (rw n refl)
unrecoverable-message limit job message (inr (d, (m, l, p, q), e)) = rw (d, l, e) (ground arith)

-- An unrecoverable error leads to the failed set, whatever attempts are left.
fail_job-unrecoverable :
    (custom : Option CustomStrategy) (f : Failure Fetched) (job : Job) (reply : Reply Fetched)
    → is_unrecoverable f.error ≡ true
    → f.backend (move_to_failed job.id (some f.error.message) f.token f.fetch_next) ≡ returns reply
    → ((fail_job custom f job).calls
        ≡ move_to_failed job.id (some f.error.message) f.token f.fetch_next ∷ [])
      × ((fail_job custom f job).result ≡ returns reply.next)
unfolding update_stacktrace call_for carry_out
fail_job-unrecoverable custom f job reply u e =
    let spent = fail_job_spent custom f job (ground arith) in
    (
      ap (λ m. m.calls) spent ∙ carry_out_calls custom f false (some (pos 0)) _,
      ap (λ m. m.result) spent ∙ rw (e, carry_out) refl,
    )

module _ {R : Type 0} (x : Setting) (base : Backend Store R) (c : Context Store R) where
  abbrev within : Context Store R
  within = record c { api = over_job x base }

  -- A failure that is neither a rate limit nor a move by the processor, in a worker whose backend
  -- is open, calls `moveToFailed` of the job once, and nothing else.
  handle_failed_lem :
      (err : WorkerError) (job : ActiveJob) (token : String) (callback : Bool) (s : Session Store)
      → base.closing s.backend ≡ false
      → (err.error.message === "bullmq:rateLimitExceeded") ≡ false
      → is_moved err.error ≡ false
      → (fail_job x.custom
          (failure x err token (callback && may_fetch s.timing))
          s.backend.job).result
        ≡ returns none
      → handle_failed within err job token callback s ≡ (
        returns no_job,
        emit (failed job.id) (record s {
          backend = store_failed x err token (callback && may_fetch s.timing) s.backend;
        }),
      )
  unfolding handle_failed over_job settle
  handle_failed_lem err job token callback s a b d e = rw (a, b, d) (rw e refl)

  -- An operation that returns at once is called once.
  retry_once :
      (n : ℕ) (only_emit : Bool) (fn : Session Store → Outcome WorkerError NextJob × Session Store)
      (s t : Session Store)
      → c.fuel ≡ suc n
      → fn s ≡ (returns no_job, t)
      → retry within only_emit fn s ≡ (gives no_job, record t { emitted = t.emitted ++ [] })
  unfolding retry_if_failed
  retry_once n only_emit fn s t f e = rw f (
      rw (e, retry_if_failed)
        (ap
          (λ (r : Outcome WorkerError NextJob × Session Store).
            let end : Ended WorkerError NextJob = gives no_job in
            (end, record r.1 { emitted = r.1.emitted ++ [] }))
          e))

  abbrev tracked : ActiveJob → Session Store → Session Store
  tracked job s = record s {
    locks =
        (LockManager.track_job job.id job.token job.processed_on c.processor_accepts_signal
          s.locks).1;
  }

  -- A job that is not to be processed, since its parent or its limit of starts fails it, fails with
  -- an error that is never retried.
  process_job_over :
      (n : ℕ) (processor : ActiveJob → Session Store → Outcome WorkerError R × Session Store)
      (job : ActiveJob) (callback : Bool) (message : String) (s : Session Store)
      → c.fuel ≡ suc n
      → get_unrecoverable_error_message c.max_started_attempts job ≡ some message
      → base.closing s.backend ≡ false
      → (message === "bullmq:rateLimitExceeded") ≡ false
      → (fail_job x.custom
          (failure x (unrecoverable_error message) job.token (callback && may_fetch s.timing))
          s.backend.job).result
        ≡ returns none
      → (process_job within processor job callback s).1.backend
        ≡ store_failed x
            (unrecoverable_error message)
            job.token
            (callback && may_fetch s.timing)
            s.backend
  unfolding process_job try_process is_moved
  process_job_over n processor job callback message s f m open_ limit r =
      rw (m, try_process)
        (ap
          (λ (r : Ended WorkerError NextJob × Session Store).
            (caught within job callback r).1.backend)
          (retry_once n false
            (λ t.
              handle_failed within (unrecoverable_error message) job job.token callback
                (untracked within job t))
            (tracked job s) _ f
            (handle_failed_lem (unrecoverable_error message) job job.token callback
              (untracked within job (tracked job s)) open_ limit refl r)))

  -- When a processor fails with an error that neither says that the limit of the rate is exceeded
  -- nor that the job was moved, while the backend is not closing, and `moveToFailed` brings no next
  -- job, then `processJob` does with the stored job what one call of `moveToFailed` with that error
  -- does, and nothing else.
  pub process_job_throws :
      (n : ℕ) (processor : ActiveJob → Session Store → Outcome WorkerError R × Session Store)
      (job : ActiveJob) (callback : Bool) (err : WorkerError) (s s' : Session Store)
      → c.fuel ≡ suc n
      → get_unrecoverable_error_message c.max_started_attempts job ≡ none
      → processor job (tracked job s) ≡ (throws err, s')
      → base.closing s'.backend ≡ false
      → (err.error.message === "bullmq:rateLimitExceeded") ≡ false
      → is_moved err.error ≡ false
      → (fail_job x.custom
          (failure x err job.token (callback && may_fetch s'.timing))
          s'.backend.job).result
        ≡ returns none
      → (process_job within processor job callback s).1.backend
        ≡ store_failed x err job.token (callback && may_fetch s'.timing) s'.backend
  unfolding process_job try_process catch_error
  process_job_throws n processor job callback err s s' f m p open_ limit moved r =
      rw (m, try_process)
        (rw p (
          subst
            (λ u.
              (caught within job callback (rethrows err, u)).1.backend
              ≡ store_failed x err job.token (callback && may_fetch s'.timing) s'.backend)
            (sym (ap (λ (a : Outcome WorkerError R × Session Store). a.1) p))
            (ap (λ (r : Ended WorkerError NextJob × Session Store). r.1.backend)
              (retry_once n true
                (λ t. handle_failed within err job job.token callback (untracked within job t)) s' _
                f
                (handle_failed_lem err job job.token callback (untracked within job s') open_ limit
                  moved r)))))

  -- A job with a deferred failure that is not empty, or, without one, that was started more often
  -- than a limit above 0, is not processed. If the backend is not closing, the message is not the
  -- one for the limit of the rate, and the backend answers without a next job, then the only call
  -- is the one that moves it to the failed set with the deferred failure or the message of too many
  -- starts, whatever attempts are left and whatever the processor would do.
  pub process_job-move_to_failed :
      (n : ℕ) (processor : ActiveJob → Session Store → Outcome WorkerError R × Session Store)
      (job : ActiveJob) (callback : Bool) (message : String) (s : Session Store)
      (finished_on : Option ℕ)
      → c.fuel ≡ suc n
      → IsDeferred job message ⊎ IsStartedTooOften c.max_started_attempts job message
      → base.closing s.backend ≡ false
      → (message === "bullmq:rateLimitExceeded") ≡ false
      → x.answers (
          move_to_failed s.backend.job.id (some message) job.token (callback && may_fetch s.timing))
        ≡ returns (record { next = none; finished_on = finished_on })
      → (process_job within processor job callback s).1.backend.calls
        ≡ s.backend.calls
          ++ move_to_failed s.backend.job.id
              (some message)
              job.token
              (callback && may_fetch s.timing)
            ∷ []
  unfolding is_unrecoverable failure store_failed
  process_job-move_to_failed n processor job callback message s finished_on f refused open_ limit
        e =
      let m = unrecoverable-message c.max_started_attempts job message refused in
      let done =
        fail_job-unrecoverable x.custom
          (failure x (unrecoverable_error message) job.token (callback && may_fetch s.timing))
          s.backend.job (record { next = none; finished_on = finished_on }) refl e in
      ap (λ w. w.calls) (process_job_over n processor job callback message s f m open_ limit done.1)
      ∙ ap (λ cs. s.backend.calls ++ cs) done.0

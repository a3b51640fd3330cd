-- ===== src/Worker/Processing/Handlers.antt =====
-- `processJob`, `handleCompleted` and `handleFailed` of src/classes/worker.ts.
use bullmq.Shared.{
  ◌+◌, ◌===◌, ltb, if◌then◌else◌, ◌&&◌, Bool, true, false, Option, none, some, String, pos, negsuc,
  Outcome, returns, throws,
}
use bullmq.LockManager
use bullmq.LockManager.{LockManager}
use bullmq.Worker.Timing.{update_delays}
use bullmq.Worker.Retrying.{WorkerError, Ended, gives, swallows, rethrows, goes_on}
use bullmq.Worker.Processing.{
  ActiveJob, Fetched, Event, completed, failed, Session, NextJob, no_job, Context, may_fetch,
  is_moved, get_unrecoverable_error_message, unrecoverable_error, emit, retry, on_backend,
}
use bullmq.Worker.Processing.Next.{take_next, move_to_active, next_job_from_job_data}

module _ {B R : Type 0} (c : Context B R) where
  -- What follows the move of a job that has ended, with the event for it.
  unfoldable pub settle :
      Event
      → String
      → Outcome WorkerError (Option Fetched) × Session B
      → Outcome WorkerError NextJob × Session B
  unfolding next_job_from_job_data update_delays
  settle e token (throws x, s) = (throws x, s)
  settle e token (returns none, s) = (returns no_job, emit e s)
  settle e token (returns (some f), s) = take_next c f token (emit e s)

  unfoldable pub handle_completed :
      R → ActiveJob → String → Bool → Session B → Outcome WorkerError NextJob × Session B
  unfolding settle
  handle_completed result job token callback s =
      let fetch_next = callback && may_fetch s.timing in
      if c.api.closing s.backend
      then (returns no_job, s)
      else settle (completed job.id) token
          (on_backend (c.api.move_to_completed job result token fetch_next) s)

  -- `moveLimitedBackToWait` and the limit that follows from its answer.
  unfoldable pub back_to_wait :
      ActiveJob → String → Session B → Outcome WorkerError NextJob × Session B
  back_to_wait job token s =
      let (answer, s') = on_backend (c.api.move_to_wait job token) s in
      elim answer [
        | throws e ↦ (throws e, s')
        | returns (pos ttl) ↦ (
          returns no_job,
          record s' {
            timing = record s'.timing { limit_until = if ltb 0 ttl then c.now + ttl else 0 };
          },
        )
        | returns (negsuc n) ↦
            (returns no_job, record s' { timing = record s'.timing { limit_until = 0 } })
      ]

  unfoldable pub handle_failed :
      WorkerError → ActiveJob → String → Bool → Session B → Outcome WorkerError NextJob × Session B
  unfolding is_moved back_to_wait move_to_active settle
  handle_failed err job token callback s =
      let fetch_next = callback && may_fetch s.timing in
      if c.api.closing s.backend
      then (returns no_job, s)
      else if err.error.message === "bullmq:rateLimitExceeded"
      then back_to_wait job token s
      else if is_moved err.error
      then if fetch_next then move_to_active c token s else (returns no_job, s)
      else settle (failed job.id) token
          (on_backend (c.api.move_to_failed job err token fetch_next) s)

  abbrev pub untracked : ActiveJob → Session B → Session B
  untracked job s = record s { locks = LockManager.untrack_job job.id s.locks }

  -- The `catch` block: the job fails with the error.
  unfoldable pub catch_error :
      WorkerError → ActiveJob → Bool → Session B → Ended WorkerError NextJob × Session B
  unfolding handle_failed
  catch_error e job callback s =
      retry c true (λ t. handle_failed e job job.token callback (untracked job t)) s

  abbrev pub caught :
      ActiveJob
      → Bool
      → Ended WorkerError NextJob × Session B
      → Ended WorkerError NextJob × Session B
  caught job callback (gives n, s) = (gives n, s)
  caught job callback (swallows, s) = (swallows, s)
  caught job callback (goes_on, s) = (goes_on, s)
  caught job callback (rethrows e, s) = catch_error e job callback s

  -- The `try` block, up to what it throws. `processor` is the user's function, with all that
  -- happens while it runs.
  unfoldable pub try_process :
      (ActiveJob → Session B → Outcome WorkerError R × Session B)
      → ActiveJob
      → Bool
      → Session B
      → Ended WorkerError NextJob × Session B
  unfolding get_unrecoverable_error_message handle_failed handle_completed
  try_process processor job callback s =
      elim (get_unrecoverable_error_message c.max_started_attempts job) [
        | some message ↦
            retry c false
              (λ t.
                handle_failed (unrecoverable_error message) job job.token callback
                  (untracked job t))
              s
        | none ↦
            let (answer, s') = processor job s in
            elim answer [
              | returns r ↦
                  retry c false (λ t. handle_completed r job job.token callback (untracked job t))
                    s'
              | throws e ↦ (rethrows e, s')
            ]
      ]

  unfoldable pub process_job :
      (ActiveJob → Session B → Outcome WorkerError R × Session B)
      → ActiveJob
      → Bool
      → Session B
      → Ended WorkerError NextJob × Session B
  unfolding try_process catch_error
  process_job processor job callback s =
      let (controller, locks) =
        LockManager.track_job job.id job.token job.processed_on c.processor_accepts_signal
          s.locks in
      let (ended, s') =
        caught job callback (try_process processor job callback (record s { locks = locks })) in
      (ended, untracked job s')

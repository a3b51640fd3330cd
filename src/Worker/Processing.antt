-- ===== src/Worker/Processing.antt =====
-- The processing of a job in src/classes/worker.ts, without the telemetry around it: the state and
-- the interface to the job and the backend. What the worker calls on these is the record `Backend`,
-- on a state `B` that holds all that is outside the worker.
pub mod Next
pub mod Handlers
pub mod Stopping
pub mod Settled
pub mod Moves
use bullmq.Shared.{
  ℕ, ◌+◌, ◌==◌, ◌===◌, ltb, if◌then◌else◌, not, ◌&&◌, ◌||◌, Bool, true, false, List, [], ◌∷◌, ◌++◌,
  Option, none, some, String, ◌<>◌, ℤ, pos, negsuc, is_given, Outcome, returns, throws,
}
use bullmq.Job.Failing.{
  JobError, ErrorClass, unrecoverable, delayed, waiting, waiting_children, other,
}
use bullmq.LockManager
use bullmq.LockManager.{LockManager}
use bullmq.Worker.Timing.{Timing, update_delays, is_above_zero}
use bullmq.Worker.Retrying.{
  WorkerError, RetryOptions, Flags, Ended, gives, swallows, rethrows, goes_on, Retried,
  retry_if_failed, is_not_connection_error,
}

-- What the worker reads of a job that it processes.
pub record ActiveJob : Type 0 where
  pub id : String
  pub token : String
  pub processed_on : ℕ
  pub repeat_job_key : Option String
  pub deferred_failure : Option String
  pub attempts_started : ℕ

-- The answer `[jobData, jobId, rateLimitDelay, delayUntil]` of the backend.
pub record Fetched : Type 0 where
  pub job : Option ActiveJob
  pub rate_limit_delay : Option ℤ
  pub delay_until : Option ℤ

pub data Event : Type 0 where
  completed failed active : String → Event
  drained : Event
  error : WorkerError → Event
  scheduling_error : String → Event

-- The part of the worker's state that is involved.
pub record Session (B : Type 0) : Type 0 where
  pub timing : Timing
  pub closed : Bool
  pub locks : LockManager
  pub emitted : List Event
  pub backend : B

-- The methods of the job and the backend. A move of a job answers with the next job's data, if the
-- backend has sent any.
pub record Backend (B : Type 0) (R : Type 0) : Type 0 where
  pub closing : B → Bool
  pub move_to_completed :
      ActiveJob → R → String → Bool → B → Outcome WorkerError (Option Fetched) × B
  pub move_to_failed :
      ActiveJob → WorkerError → String → Bool → B → Outcome WorkerError (Option Fetched) × B
  pub move_to_wait : ActiveJob → String → B → Outcome WorkerError ℤ × B
  pub move_to_active : String → B → Outcome WorkerError Fetched × B
  pub is_job_scheduler : String → B → Outcome WorkerError Bool × B
  pub upsert_job_scheduler : ActiveJob → String → B → Outcome WorkerError (Unit {0}) × B

-- What a handler resolves to. The last constructor says that it has not within the fuel.
pub data NextJob : Type 0 where
  no_job unfinished : NextJob
  next_job : ActiveJob → NextJob

-- What is fixed: the backend, the time, the message of the Redis client for a closed connection,
-- and the options.
pub record Context (B : Type 0) (R : Type 0) : Type 0 where
  pub api : Backend B R
  pub now : ℕ
  pub closed_msg : String
  pub run_retry_delay : ℕ
  pub max_started_attempts : Option ℕ
  pub processor_accepts_signal : Bool
  pub fuel : ℕ

-- `!(this.closing || this.paused)`.
abbrev pub may_fetch : Timing → Bool
may_fetch w = not (w.closing || w.paused)

-- The class or the name says that the job was moved by its processor.
abbrev pub is_class_moved : ErrorClass → Bool
is_class_moved delayed = true
is_class_moved waiting = true
is_class_moved waiting_children = true
is_class_moved _ = false

unfoldable pub is_moved : JobError → Bool
is_moved e =
    is_class_moved e.class
    || e.name === "DelayedError"
    || e.name === "WaitingError"
    || e.name === "WaitingChildrenError"

-- `maxStartedAttempts && maxStartedAttempts < attemptsStarted`.
abbrev pub is_over_started : Option ℕ → ℕ → Bool
is_over_started none n = false
is_over_started (some m) n = if m == 0 then false else ltb m n

unfoldable pub get_unrecoverable_error_message : Option ℕ → ActiveJob → Option String
get_unrecoverable_error_message limit job =
    if is_given job.deferred_failure
    then job.deferred_failure
    else if is_over_started limit job.attempts_started
    then some "job started more than allowable limit"
    else none

abbrev pub unrecoverable_error : String → WorkerError
unrecoverable_error message = record {
  error = record {
    class = unrecoverable;
    name = "UnrecoverableError";
    message = message;
    stack = none;
  };
  connection_closed = false;
  code = none;
}

-- What a list of errors emits.
abbrev errors : List WorkerError → List Event
errors [] = []
errors (e ∷ es) = error e ∷ errors es

module _ {B : Type 0} where
  abbrev pub emit : Event → Session B → Session B
  emit e s = record s { emitted = s.emitted ++ e ∷ [] }

  abbrev pub flags : Session B → Flags
  flags s = record { paused = s.timing.paused; closing = s.timing.closing; closed = s.closed }

  abbrev pub on_backend :
      {A : Type 0} → (B → Outcome WorkerError A × B) → Session B → Outcome WorkerError A × Session B
  on_backend f s = let (answer, b) = f s.backend in (answer, record s { backend = b })

-- The options of each call of `retryIfFailed`.
abbrev pub retry_options : ℕ → Bool → RetryOptions
retry_options delay only_emit = record {
  delay_in_ms = delay;
  max_retries = none;
  only_emit_error = only_emit;
}

-- `retryIfFailed`, with what it emits.
abbrev pub retry :
    {B R A : Type 0} (c : Context B R)
    → Bool
    → (Session B → Outcome WorkerError A × Session B)
    → Session B
    → Ended WorkerError A × Session B
retry c only_emit fn s =
    let r =
      retry_if_failed (is_not_connection_error c.closed_msg) flags c.fuel 0 fn
        (retry_options c.run_retry_delay only_emit) s in
    (r.ended, record r.state { emitted = r.state.emitted ++ errors r.emitted })

-- ===== src/Job/Failing.antt =====
-- `moveToFailed` of the class `Job` of src/classes/job.ts, with `shouldRetryJob` and
-- `updateStacktrace`.
pub mod Attempts
pub mod Exhausted
pub mod Stacktrace
use bullmq.Shared.{
  ℕ, zero, suc, ◌+◌, ◌-◌, ◌==◌, ◌===◌, ltb, if◌then◌else◌, not, ◌&&◌, ◌||◌, Bool, true, false, List,
  [], ◌∷◌, ◌++◌, Option, none, some, String, length, drop, is_given, ℤ, pos, is_minus_one, is_zero,
  Fraction, Outcome, returns, throws,
}
use bullmq.Backoffs.{BackoffOptions, Strategy, StrategyError, calculate}
use bullmq.Job.{JobsOptions, Job}

-- The class of an error, of src/classes/errors.
pub data ErrorClass : Type 0 where
  unrecoverable delayed waiting waiting_children rate_limit other : ErrorClass

pub record JobError : Type 0 where
  pub class : ErrorClass
  pub name : String
  pub message : String
  pub stack : Option String

abbrev is_unrecoverable_class : ErrorClass → Bool
is_unrecoverable_class unrecoverable = true
is_unrecoverable_class _ = false

unfoldable pub is_unrecoverable : JobError → Bool
is_unrecoverable err = is_unrecoverable_class err.class || err.name === "UnrecoverableError"

-- `[delay == -1 ? false : true, delay == -1 ? 0 : delay]`.
abbrev retry_of : Option ℤ → Bool × Option ℤ
retry_of none = (true, none)
retry_of (some d) = if is_minus_one d then (false, some (pos 0)) else (true, some d)

-- The custom strategy of the worker's settings, and what it is for one error and job.
abbrev pub CustomStrategy : Type 0
CustomStrategy = JobError → Job → Strategy

abbrev pub given_to : JobError → Job → Option CustomStrategy → Option Strategy
given_to err job none = none
given_to err job (some s) = some (s err job)

abbrev decided : Outcome StrategyError (Option ℤ) → Outcome StrategyError (Bool × Option ℤ)
decided (returns delay) = returns (retry_of delay)
decided (throws e) = throws e

unfoldable pub should_retry_job :
    Fraction → Option CustomStrategy → JobError → Job → Outcome StrategyError (Bool × Option ℤ)
unfolding is_unrecoverable
should_retry_job random custom err job =
    if ltb (job.attempts_made + 1) job.attempts && not (is_unrecoverable err)
    then decided (calculate random job.backoff (job.attempts_made + 1) (given_to err job custom))
    else returns (false, some (pos 0))

abbrev pub or_empty : Option (List String) → List String
or_empty none = []
or_empty (some l) = l

-- `l.slice(-n)` for n > 0: the last n entries.
unfoldable pub last_n : ℕ → List String → List String
last_n n l = drop (length l - n) l

unfoldable pub limit_trace : Option ℕ → List String → List String
unfolding last_n
limit_trace none l = l
limit_trace (some zero) l = []
limit_trace (some (suc n)) l = last_n (suc n) l

-- The stack of an error, if it has one that is not empty.
unfoldable pub update_stacktrace : JobError → Job → Job
unfolding limit_trace
update_stacktrace err job =
    let old = or_empty job.stacktrace in
    record job {
      stacktrace = some (elim err.stack [
        | none ↦ old
        | some s ↦ if s === "" then old else limit_trace job.opts.stack_trace_limit (old ++ s ∷ [])
      ]);
    }

-- The calls of the backend that a failure can lead to.
pub data Call : Type 0 where
  move_to_delayed :
      (id : Option String) (now : ℕ) (delay : ℤ) (token : String) (fetch_next : Bool) → Call
  retry_job : (id : Option String) (lifo : Bool) (token : String) → Call
  move_to_failed :
      (id : Option String) (reason : Option String) (token : String) (fetch_next : Bool) → Call

pub data Metric : Type 0 where
  counts_delayed counts_retried counts_failed : Metric

-- What a call of the backend returns: the next job's data, if it has any, and the time of
-- finishing.
pub record Reply (R : Type 0) : Type 0 where
  pub next : Option R
  pub finished_on : Option ℕ

pub data Thrown : Type 0 where
  by_strategy : StrategyError → Thrown
  by_backend : String → Thrown

-- A failed attempt, as the environment gives it: the error, the time, a value of `Math.random()`
-- and how the backend answers the call that follows.
pub record Failure (R : Type 0) : Type 0 where
  pub error : JobError
  pub now : ℕ
  pub random : Fraction
  pub token : String
  pub fetch_next : Bool
  pub backend : Call → Outcome String (Reply R)

-- The job afterwards, the calls and metrics in their order, and what the method returns or throws.
pub record Moved (R : Type 0) : Type 0 where
  pub job : Job
  pub calls : List Call
  pub metrics : List Metric
  pub result : Outcome Thrown (Option R)

abbrev pub is_truthy : Option ℤ → Bool
is_truthy none = false
is_truthy (some d) = not (is_zero d)

-- The call that is made for the decision `(retry, delay)`.
unfoldable pub call_for : {R : Type 0} → Failure R → Bool → Option ℤ → Job → Call
call_for f false delay job = move_to_failed job.id job.failed_reason f.token f.fetch_next
call_for f true none job = retry_job job.id job.opts.lifo f.token
call_for f true (some d) job =
    if is_zero d
    then retry_job job.id job.opts.lifo f.token
    else move_to_delayed job.id f.now d f.token f.fetch_next

unfoldable pub metric_for : Bool → Option ℤ → Metric
metric_for false delay = counts_failed
metric_for true delay = if is_truthy delay then counts_delayed else counts_retried

-- `finishedOn` is set from the answer to the last of the three calls only.
unfoldable pub finish : {R : Type 0} → Bool → Option ℤ → Reply R → Job → Job
finish retry delay reply job = record job {
  finished_on = if retry then job.finished_on else elim reply.finished_on [
    | none ↦ job.finished_on
    | some t ↦ if t == 0 then job.finished_on else some t
  ];
  delay = if is_truthy delay then delay else job.delay;
  attempts_made = job.attempts_made + 1;
}

unfoldable pub carry_out : {R : Type 0} → Failure R → Bool → Option ℤ → Job → Moved R
unfolding call_for metric_for finish
carry_out f retry delay job =
    let call = call_for f retry delay job in
    elim (f.backend call) [
      | returns reply ↦ record {
        job = finish retry delay reply job;
        calls = call ∷ [];
        metrics = metric_for retry delay ∷ [];
        result = returns reply.next;
      }
      | throws e ↦ record {
        job = job;
        calls = call ∷ [];
        metrics = [];
        result = throws (by_backend e);
      }
    ]

-- `moveToFailed(err, token, fetchNext)`, without the telemetry around it.
unfoldable pub fail_job : {R : Type 0} → Option CustomStrategy → Failure R → Job → Moved R
unfolding should_retry_job update_stacktrace carry_out
fail_job custom f job =
    let failing = record job { failed_reason = some f.error.message } in
    elim (should_retry_job f.random custom f.error failing) [
      | returns (retry, delay) ↦ carry_out f retry delay (update_stacktrace f.error failing)
      | throws e ↦ record {
        job = failing;
        calls = [];
        metrics = [];
        result = throws (by_strategy e);
      }
    ]

-- ===== src/Job.antt =====
-- The class `Job` of src/classes/job.ts: its options and fields. The payload (`data`, `progress`,
-- the return value's content) is carried along unread and has no field here.
pub mod Options
pub mod Failing
pub mod Moving
use bullmq.Shared.{ℕ, Bool, Option, String, List, ℤ, Fraction}
use bullmq.Backoffs.{Backoff, BackoffOptions}

pub record ParentOptions : Type 0 where
  pub id : String
  pub queue : String

-- `JobsOptions`, as far as the class reads it. An absent flag is false. `debounce` says whether the
-- options have a property of that name.
pub record JobsOptions : Type 0 where
  pub attempts : Option ℕ
  pub delay : Option ℕ
  pub priority : Option Fraction
  pub timestamp : Option ℕ
  pub backoff : Option Backoff
  pub parent : Option ParentOptions
  pub fail_parent_on_failure : Bool
  pub remove_dependency_on_failure : Bool
  pub ignore_dependency_on_failure : Bool
  pub continue_parent_on_failure : Bool
  pub deduplication : Option (Option String)
  pub debounce : Bool
  pub job_id : Option String
  pub repeat_job_key : Option String
  pub size_limit : Option ℕ
  pub lifo : Bool
  pub stack_trace_limit : Option ℕ

-- `ParentKeys`.
pub record Parent : Type 0 where
  pub id : String
  pub queue_key : String
  pub fpof : Bool
  pub rdof : Bool
  pub idof : Bool
  pub cpof : Bool

-- `opts` holds what the caller gave; `attempts` and `backoff` are `this.opts.attempts` and
-- `this.opts.backoff` as the constructor sets them.
pub record Job : Type 0 where
  pub id : Option String
  pub name : String
  pub opts : JobsOptions
  pub attempts : ℕ
  pub backoff : Option BackoffOptions
  pub delay : Option ℤ
  pub priority : Fraction
  pub timestamp : ℕ
  pub attempts_started : ℕ
  pub attempts_made : ℕ
  pub failed_reason : Option String
  pub stacktrace : Option (List String)
  pub finished_on : Option ℕ
  pub processed_on : Option ℕ
  pub parent_key : Option String
  pub parent : Option Parent
  pub deduplication_id : Option String
  pub repeat_job_key : Option String

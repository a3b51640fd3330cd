-- ===== src/Job/Moving.antt =====
-- The moves of the class `Job` of src/classes/job.ts other than `moveToFailed`: what each asks of
-- the backend, and what it does to the job after the answer. A call of the backend that throws
-- leaves the job as it is. Telemetry and the value that a job returns are left out.
pub mod Retried
use bullmq.Shared.{
  ℕ, zero, suc, ◌+◌, ◌-◌, ltb, if◌then◌else◌, Bool, true, false, List, [], ◌∷◌, Option, none, some,
  String, ◌<>◌, ℤ, pos, Outcome, returns, throws,
}
use bullmq.Job.{Job}

-- `recordJobMetrics`.
pub data Metric : Type 0 where
  counts_completed counts_waiting counts_delayed counts_waiting_children : Metric

-- The job afterwards, the metrics, and what the method returns or throws.
pub record Moved (A : Type 0) : Type 0 where
  pub job : Job
  pub metrics : List Metric
  pub result : Outcome String A

-- A method that throws before it changes the job.
abbrev threw : {A : Type 0} → Job → String → Moved A
threw job e = record { job = job; metrics = []; result = throws e }

-- `moveToCompleted` of a value that can be written as JSON: the answer is the data of the next job
-- and the time of finishing.
unfoldable pub move_to_completed : {R : Type 0} → Job → Outcome String (R × ℕ) → Moved R
move_to_completed job (throws e) = threw job e
move_to_completed job (returns (next, finished_on)) = record {
  job = record job { finished_on = some finished_on; attempts_made = job.attempts_made + 1 };
  metrics = counts_completed ∷ [];
  result = returns next;
}

-- `moveToWait`.
unfoldable pub move_to_wait : Job → Outcome String ℕ → Moved ℕ
move_to_wait job (throws e) = threw job e
move_to_wait job (returns pttl) = record {
  job = job;
  metrics = counts_waiting ∷ [];
  result = returns pttl;
}

-- What `moveToDelayed` asks for: the delay until the time stamp, or 0 if that is past.
unfoldable pub final_delay : ℕ → ℕ → ℕ
final_delay timestamp now = if ltb now timestamp then timestamp - now else 0

unfoldable pub move_to_delayed : ℕ → Job → ℕ → (ℕ → Outcome String (Unit {0})) → Moved (Unit {0})
unfolding final_delay
move_to_delayed now job timestamp backend = elim (backend (final_delay timestamp now)) [
  | throws e ↦ threw job e
  | returns u ↦ record {
    job = record job { delay = some (pos (final_delay timestamp now)) };
    metrics = counts_delayed ∷ [];
    result = returns tt;
  }
]

-- `moveToWaitingChildren`.
unfoldable pub move_to_waiting_children : Job → Outcome String Bool → Moved Bool
move_to_waiting_children job (throws e) = threw job e
move_to_waiting_children job (returns moved) = record {
  job = job;
  metrics = if moved then counts_waiting_children ∷ [] else [];
  result = returns moved;
}

unfoldable pub promote : Job → Outcome String (Unit {0}) → Moved (Unit {0})
promote job (throws e) = threw job e
promote job (returns u) = record {
  job = record job { delay = some (pos 0) };
  metrics = [];
  result = returns tt;
}

-- The fields after `retry`.
abbrev pub reset : Bool → Bool → Job → Job
reset reset_attempts_made reset_attempts_started job = record job {
  failed_reason = none;
  finished_on = none;
  processed_on = none;
  attempts_made = if reset_attempts_made then 0 else job.attempts_made;
  attempts_started = if reset_attempts_started then 0 else job.attempts_started;
}

unfoldable pub retry : Bool → Bool → Job → Outcome String (Unit {0}) → Moved (Unit {0})
retry reset_made reset_started job (throws e) = threw job e
retry reset_made reset_started job (returns u) = record {
  job = reset reset_made reset_started job;
  metrics = [];
  result = returns tt;
}

unfoldable pub remove_child_dependency : Job → Outcome String Bool → Moved Bool
remove_child_dependency job (throws e) = threw job e
remove_child_dependency job (returns true) = record {
  job = record job { parent = none; parent_key = none };
  metrics = [];
  result = returns true;
}
remove_child_dependency job (returns false) = record {
  job = job;
  metrics = [];
  result = returns false;
}

-- `remove`: the number of jobs removed, and whether the queue emits `removed`.
unfoldable pub remove : Job → String → Outcome String ℕ → Outcome String Bool
remove job id (throws e) = throws e
remove job id (returns zero) =
    throws ("Job " <> id <> " could not be removed because it is locked by another worker")
remove job id (returns (suc n)) = returns true

-- ===== src/Tests/Moves.antt =====
-- Jobs of src/classes/job.ts that a worker of src/classes/worker.ts fails.
use bullmq.Shared.{
  ℕ, ◌≡◌, refl, true, false, [], ◌∷◌, ◌++◌, none, some, inl, Outcome, returns, throws,
}
use bullmq.Job.Failing.{move_to_failed}
use bullmq.LockManager
use bullmq.Worker.Timing.{at}
use bullmq.Worker.Retrying.{WorkerError}
use bullmq.Worker.Processing.{ActiveJob, Session, Backend, Context, get_unrecoverable_error_message}
use bullmq.Worker.Processing.Handlers.{process_job}
use bullmq.Worker.Processing.Moves.{Store, Setting, over_job, process_job-move_to_failed}
use bullmq.Tests.Job.{sample}
use bullmq.Tests.Processing.{job, fetched, broken}

abbrev setting : Setting
setting = record {
  custom = none;
  now = 100;
  random = record { negative = false; numerator = 1; denominator = 2 };
  answers = λ call. returns (record { next = none; finished_on = some 100 });
  thrown = λ e. broken;
}

abbrev base : Backend Store ℕ
base = record {
  closing = λ w. false;
  move_to_completed = λ j r t fetch w. (returns (some fetched), w);
  move_to_failed = λ j e t fetch w. (returns none, w);
  move_to_wait = λ j t w. (throws broken, w);
  move_to_active = λ t w. (returns fetched, w);
  is_job_scheduler = λ k w. (returns false, w);
  upsert_job_scheduler = λ j k w. (returns tt, w);
}

abbrev context : Context Store ℕ
context = record {
  api = base;
  now = 100;
  closed_msg = "Connection is closed.";
  run_retry_delay = 15000;
  max_started_attempts = some 3;
  processor_accepts_signal = false;
  fuel = 1;
}

abbrev store : Store
store = record { job = sample; calls = [] }

abbrev session : Session Store
session = record {
  timing = record {
    opts = record {
      drain_delay = 5000;
      maximum_rate_limit_delay = 30000;
      minimum_block_timeout = 2;
    };
    limit_until = 0;
    block_until = at 0;
    drained = false;
    paused = false;
    closing = false;
    waiting = false;
  };
  closed = false;
  locks = LockManager.new (record { lock_renew_time = 100; lock_duration = 200 });
  emitted = [];
  backend = store;
}

abbrev failing : ActiveJob → Session Store → Outcome WorkerError ℕ × Session Store
failing j s = (throws broken, session)

abbrev deferred : ActiveJob
deferred = record job { deferred_failure = some "a child has failed" }

process_job-move_to_failed_example :
    (process_job
      (record context { api = over_job setting base })
      failing
      deferred
      true
      session).1.backend.calls
    ≡ [] ++ move_to_failed sample.id (some "a child has failed") "w:0" true ∷ []
process_job-move_to_failed_example =
    process_job-move_to_failed setting base context 0 failing deferred true "a child has failed"
      session (some 100) refl (inl (refl, refl)) refl refl refl

abbrev started : ActiveJob
started = record job { attempts_started = 4 }

started_too_often :
    get_unrecoverable_error_message (some 3) started ≡ some "job started more than allowable limit"
unfolding get_unrecoverable_error_message
started_too_often = refl

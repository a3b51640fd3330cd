-- ===== src/Tests/Processing.antt =====
-- Jobs that a worker of src/classes/worker.ts processes, and its main loop.
use bullmq.Shared.{
  ℕ, ◌+◌, ◌≤◌, ◌≡◌, refl, Bool, true, false, [], none, some, pos, negsuc, Outcome, returns, throws,
  has, keys,
}
use bullmq.Job.Failing.{other}
use bullmq.LockManager
use bullmq.Worker.Timing.{at}
use bullmq.Worker.Retrying.{WorkerError}
use bullmq.Worker.Processing.{ActiveJob, Fetched, Session, Backend, Context}
use bullmq.Worker.Processing.Handlers.{process_job}
use bullmq.Worker.Processing.Settled.{is_rethrown, process_job-settles}
use bullmq.Worker.MainLoop
use bullmq.Worker.MainLoop.{
  fulfils, resolve, took, Flags, Phase, Loop, Reaches, here, onward, advances, changes, advance,
  finished,
}
use bullmq.Worker.MainLoop.Concurrency.{held, at_most_concurrency}
use bullmq.Fifo.Queue.{num_total}
use bullmq.Errors.{Arguments}

abbrev pub job : ActiveJob
job = record {
  id = "j1";
  token = "w:0";
  processed_on = 90;
  repeat_job_key = none;
  deferred_failure = none;
  attempts_started = 1;
}

abbrev pub fetched : Fetched
fetched = record { job = none; rate_limit_delay = none; delay_until = none }

-- A backend that counts its calls.
abbrev backend : Backend ℕ ℕ
backend = record {
  closing = λ b. false;
  move_to_completed = λ j r t fetch b. (returns (some fetched), b + 1);
  move_to_failed = λ j e t fetch b. (returns none, b + 1);
  move_to_wait = λ j t b. (returns (pos 50), b + 1);
  move_to_active = λ t b. (returns fetched, b + 1);
  is_job_scheduler = λ k b. (returns false, b + 1);
  upsert_job_scheduler = λ j k b. (returns tt, b + 1);
}

abbrev context : Context ℕ ℕ
context = record {
  api = backend;
  now = 100;
  closed_msg = "Connection is closed.";
  run_retry_delay = 15000;
  max_started_attempts = none;
  processor_accepts_signal = false;
  fuel = 3;
}

abbrev session : Bool → Session ℕ
session paused = record {
  timing = record {
    opts = record {
      drain_delay = 5000;
      maximum_rate_limit_delay = 30000;
      minimum_block_timeout = 2;
    };
    limit_until = 0;
    block_until = at 0;
    drained = false;
    paused = paused;
    closing = false;
    waiting = false;
  };
  closed = false;
  locks = LockManager.new (record { lock_renew_time = 100; lock_duration = 200 });
  emitted = [];
  backend = 0;
}

abbrev pub broken : WorkerError
broken = record {
  error = record { class = other; name = "Error"; message = "broken"; stack = none };
  connection_closed = false;
  code = none;
}

-- A processor that fails.
abbrev failing : ActiveJob → Session ℕ → Outcome WorkerError ℕ × Session ℕ
failing j s = (throws broken, s)

process_job-settles_example :
    let (ended, s) = process_job context failing job true (session false) in
    (is_rethrown ended ≡ false) × (has (keys s.locks.tracked) "j1" ≡ false)
process_job-settles_example = process_job-settles context failing job true (session false)

abbrev on : Flags
on = record {
  closing = false;
  paused = false;
  waiting = false;
  rate_limited = false;
  block_until = false;
}

abbrev off : Flags
off = record on { closing = true }

-- The loop has fetched the job 5 and taken it out of the queue.
abbrev expecting : Loop ℕ
expecting = advance (advance (advance (MainLoop.start 1 on)))

abbrev holding : Loop ℕ
holding = advance (advance (advance (resolve 0 (some 5) expecting)))

holding_took : holding.phase ≡ took (some 5)
unfolding advance MainLoop.start num_total bullmq.Fifo.Queue.new bullmq.Fifo.LinkedList.empty
    bullmq.Fifo.Queue.fulfil bullmq.Fifo.Queue.add bullmq.Fifo.LinkedList.push
    bullmq.Fifo.Queue.fetch bullmq.Fifo.LinkedList.shift
holding_took = refl

fetched_one : Reaches (MainLoop.start 1 on) expecting
fetched_one = onward _ _ (onward _ _ (onward _ _ here (advances _)) (advances _)) (advances _)

taking : Reaches (MainLoop.start 1 on) holding
unfolding advance MainLoop.start num_total bullmq.Fifo.Queue.new bullmq.Fifo.LinkedList.empty
    bullmq.Fifo.Queue.add
taking =
    onward _ _
      (onward _ _
        (onward _ _ (onward _ _ fetched_one (fulfils 0 (some 5) expecting refl)) (advances _))
        (advances _))
      (advances _)

at_most_concurrency_example : held holding.phase + num_total holding.queue ≤ 1
at_most_concurrency_example = at_most_concurrency 1 on holding taking

ending : Reaches {J = ℕ} (MainLoop.start 1 off) (advance (MainLoop.start 1 off))
ending = onward _ _ here (advances _)

ending_finished : (advance (MainLoop.start {J = ℕ} 1 off)).phase ≡ finished
unfolding advance MainLoop.start num_total bullmq.Fifo.Queue.new bullmq.Fifo.LinkedList.empty
ending_finished = refl

abbrev failed_child : Arguments
failed_child = record {
  code = negsuc 8;
  code_text = "-9";
  job_id = "j1";
  parent_key = "undefined";
  command = "moveToFinished";
  state = "active";
}

-- ===== src/Tests/Worker.antt =====
-- Workers of src/classes/worker.ts.
use bullmq.Shared.{
  ℕ, ◌+◌, ◌≤◌, ◌<◌, ◌≡◌, refl, Bool, true, false, Outcome, returns, throws, min, arith, ltb, suc,
  zero, if◌then◌else◌, some, inr,
}
use bullmq.LockManager
use bullmq.Worker.Timing.{Until, at, Options, Timing, blocks, wait_for_job}
use bullmq.Worker.Timing.Bounds.{IsBounded, wait_for_job_bounds}
use bullmq.Worker.Retrying.{RetryOptions, Flags, retry_if_failed}
use bullmq.Worker.Retrying.Answers.{
  retry_if_failed_ends, IsBeforeLimit, end_of, answer, after, is_transient,
}
use bullmq.Worker.Lifecycle.{Life, Reaches, here, onward, runs, loops, run_loop}
use bullmq.Worker.Lifecycle
use bullmq.Worker.Lifecycle.Single.{one_main_loop}

abbrev timing : Timing
timing = record {
  opts = record { drain_delay = 5000; maximum_rate_limit_delay = 30000; minimum_block_timeout = 2 };
  limit_until = 0;
  block_until = at 0;
  drained = true;
  paused = false;
  closing = false;
  waiting = false;
}

waits_until_then : (wait_for_job 100 (at 400) timing).0 ≡ blocks 300
unfolding wait_for_job bullmq.Worker.Timing.get_block_timeout bullmq.Worker.Timing.is_rate_limited
waits_until_then = refl

wait_for_job_bounds_example :
    (timing.paused ≡ false)
    × (timing.closing ≡ false)
    × (timing.limit_until ≤ 100)
    × (0 < 300)
    × (min 2 10000 ≤ 300)
    × IsBounded 100 (at 400) timing 300
wait_for_job_bounds_example =
    wait_for_job_bounds 100 (at 400) timing 300 (omega arith) waits_until_then

-- An operation that fails twice for the connection, then answers.
abbrev flaky : ℕ → Outcome ℕ ℕ × ℕ
flaky n = (if ltb n 2 then throws n else returns n, n + 1)

abbrev never : ℕ → Bool
never e = false

abbrev calm : ℕ → Flags
calm s = record { paused = false; closing = false; closed = false }

abbrev twice : RetryOptions
twice = record { delay_in_ms = 100; max_retries = some 2; only_emit_error = false }

one_fails : (j : ℕ) → j < 1 → is_transient never flaky (answer never flaky j 0) ≡ true
one_fails zero lt = refl
one_fails (suc j) lt = absurd (omega arith)

one_more : (j : ℕ) → j < 1 → IsBeforeLimit (some 2) j
one_more j lt n e = let same : 2 ≡ n = cc in inr (omega arith)

-- The second call is the last one that is allowed.
retry_if_failed_ends_example :
    let r = retry_if_failed never calm 5 0 flaky twice 0 in
    (r.ended ≡ end_of never flaky false (answer never flaky 1 0))
    × (r.calls ≡ 2)
    × (r.state ≡ after never flaky 2 0)
retry_if_failed_ends_example =
    retry_if_failed_ends never flaky calm twice 1 5 0 one_fails one_more (inr refl) (omega arith)

started :
    Reaches
      (Lifecycle.start true false false (record { lock_renew_time = 100; lock_duration = 200 }))
      (run_loop
        (Lifecycle.run (
          Lifecycle.start true false false
            (record { lock_renew_time = 100; lock_duration = 200 }))).1)
unfolding Lifecycle.run Lifecycle.start
started = onward _ _ (onward _ _ here (runs _)) (loops _ refl)

one_main_loop_example :
    let opts : LockManager.Options = record { lock_renew_time = 100; lock_duration = 200 } in
    let w = run_loop (Lifecycle.run (Lifecycle.start true false false opts)).1 in
    (w.starting + w.main_loops ≡ (if w.running then 1 else 0))
    × (w.checkers ≡ (if w.stalled_checker_running then 1 else 0))
one_main_loop_example = one_main_loop true false false _ _ started

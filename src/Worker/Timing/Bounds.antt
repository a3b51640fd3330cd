-- ===== src/Worker/Timing/Bounds.antt =====
-- The bounds of the waits of src/classes/worker.ts, and when no job is taken.
use bullmq.Shared.{ℕ, ◌-◌, ◌≤◌, ◌<◌, false, min, max, ◌≡◌, ◌⊎◌, arith}
use bullmq.Worker.Timing.{
  Until, at, forever, Timing, blocks, is_rate_limited, get_block_timeout, wait_for_job,
}

-- The upper bound of a wait.
abbrev pub IsBounded : ℕ → Until → Timing → ℕ → Type 0
IsBounded now forever w t = t ≡ 10000
IsBounded now (at u) w t =
    ((u ≡ 0) × (t ≡ max w.opts.drain_delay w.opts.minimum_block_timeout))
    ⊎ ((now < u)
        × (t ≤ max w.opts.minimum_block_timeout 10000)
        × (t ≤ max w.opts.minimum_block_timeout (u - now)))

-- A worker blocks for `t` milliseconds, for the next job, only while it is neither paused nor
-- closing nor rate limited, and, where the backend's minimum is above 0, for some time, which is
-- not shorter than that minimum or 10 seconds, whichever is less. With a time `u` to wait for, that
-- has to lie ahead, and `t` is neither longer than 10 seconds nor than up to `u`, unless the
-- minimum is longer; with none, `t` is the drain delay or the minimum, whichever is longer.
pub wait_for_job_bounds :
    (now : ℕ) (until : Until) (w : Timing) (t : ℕ)
    → 0 < w.opts.minimum_block_timeout
    → (wait_for_job now until w).0 ≡ blocks t
    → (w.paused ≡ false)
      × (w.closing ≡ false)
      × (w.limit_until ≤ now)
      × (0 < t)
      × (min w.opts.minimum_block_timeout 10000 ≤ t)
      × IsBounded now until w t
unfolding wait_for_job is_rate_limited get_block_timeout
wait_for_job_bounds now forever w t h e = ground arith
wait_for_job_bounds now (at u) w t h e = ground arith

-- ===== src/Worker/Timing.antt =====
-- When a worker of src/classes/worker.ts blocks and for how long, and when it takes a job. Times
-- and time spans are whole milliseconds; what the source gives in seconds is a thousand times that.
pub mod Bounds
use bullmq.Shared.{
  ℕ, zero, suc, ◌+◌, ◌-◌, ◌==◌, ltb, leb, if◌then◌else◌, not, ◌&&◌, ◌||◌, Bool, true, false, List,
  [], ◌∷◌, ◌++◌, Option, none, some, String, ℤ, pos, negsuc, sub_ℕ, Outcome, returns, throws, min,
  max,
}

-- A point in time, or `Infinity`.
pub data Until : Type 0 where
  at : ℕ → Until
  forever : Until

pub record Options : Type 0 where
  pub drain_delay : ℕ
  pub maximum_rate_limit_delay : ℕ
  pub minimum_block_timeout : ℕ

-- The fields that decide about waiting. `waiting` says whether there is such a promise.
pub record Timing : Type 0 where
  pub opts : Options
  pub limit_until : ℕ
  pub block_until : Until
  pub drained : Bool
  pub paused : Bool
  pub closing : Bool
  pub waiting : Bool

-- `maximumBlockTimeout`.
abbrev pub maximum_block_timeout : ℕ
maximum_block_timeout = 10000

unfoldable pub is_rate_limited : ℕ → Timing → Bool
is_rate_limited now w = ltb now w.limit_until

-- `Math.max(n, 0)` of an integer, where a missing one is 0.
abbrev pub clamped : Option ℤ → ℕ
clamped none = 0
clamped (some (pos n)) = n
clamped (some (negsuc n)) = 0

unfoldable pub update_delays : ℕ → Option ℤ → Option ℤ → Timing → Timing
update_delays now limit_delay delay_until w = record w {
  limit_until = if ltb 0 (clamped limit_delay) then now + clamped limit_delay else 0;
  block_until = at (clamped delay_until);
}

unfoldable pub get_rate_limit_delay : ℕ → Timing → ℕ
get_rate_limit_delay delay w = min delay w.opts.maximum_rate_limit_delay

unfoldable pub get_block_timeout : ℕ → Until → Timing → ℤ
get_block_timeout now forever w = pos maximum_block_timeout
get_block_timeout now (at t) w =
    if t == 0
    then pos (max w.opts.drain_delay w.opts.minimum_block_timeout)
    else if leb t now
    then sub_ℕ t now
    else if ltb (t - now) w.opts.minimum_block_timeout
    then pos w.opts.minimum_block_timeout
    else pos (min (t - now) maximum_block_timeout)

abbrev pub is_above_zero : ℤ → Bool
is_above_zero (pos n) = ltb 0 n
is_above_zero (negsuc n) = false

-- What `waitForJob` does up to its call of the backend: it returns at once, or blocks for that
-- time.
pub data Wait : Type 0 where
  returns_at_once : Until → Wait
  blocks : ℕ → Wait

abbrev magnitude : ℤ → ℕ
magnitude (pos n) = n
magnitude (negsuc n) = 0

unfoldable pub wait_for_job : ℕ → Until → Timing → Wait × Timing
unfolding get_block_timeout update_delays is_rate_limited
wait_for_job now block_until w =
    let timeout = get_block_timeout now block_until w in
    if w.paused
    then (returns_at_once forever, w)
    else if not w.closing && not (is_rate_limited now w)
    then if is_above_zero timeout
      then (blocks (magnitude timeout), update_delays now none none w)
      else (returns_at_once (at 0), w)
    else (returns_at_once forever, w)

-- What it returns once the backend has answered: with the score of a marker, without one, or with
-- an error. An earlier `blockUntil` stays.
unfoldable pub woken : Until → Outcome String (Option ℕ) → Until
woken block_until (throws e) = forever
woken block_until (returns none) = at 0
woken forever (returns (some score)) = at score
woken (at t) (returns (some score)) = if not (t == 0) && ltb t score then at t else at score

-- What `_getNextJob` does first.
pub data Next : Type 0 where
  gives_up waits takes : Next

unfoldable pub next : ℕ → Bool → Timing → Next
unfolding is_rate_limited
next now block w =
    if w.paused || w.closing
    then gives_up
    else if w.drained && block && w.limit_until == 0 && not w.waiting
    then waits
    else if is_rate_limited now w
    then gives_up
    else takes

-- What it does after the wait: `blockUntil` becomes what the wait returned, and a job is taken if
-- that is 0 or less than a millisecond away.
unfoldable pub after_wait : ℕ → Until → Timing → Next × Timing
after_wait now forever w = (gives_up, record w { block_until = forever; waiting = false })
after_wait now (at t) w = (
  if t == 0 || ltb t (now + 1) then takes else gives_up,
  record w { block_until = at t; waiting = false },
)

-- `waitForRateLimit`: how long the loop waits, and the state after that. Nothing if no limit holds.
unfoldable pub wait_for_rate_limit : ℕ → Timing → Option ℕ × Timing
unfolding get_rate_limit_delay
wait_for_rate_limit now w =
    if ltb now w.limit_until
    then (
      some (get_rate_limit_delay (w.limit_until - now) w),
      record w { drained = false; limit_until = 0 },
    )
    else (none, w)

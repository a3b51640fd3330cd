-- ===== src/Worker/MainLoop.antt =====
-- `mainLoop` of src/classes/worker.ts, over the queue of promises of `AsyncFifoQueue`, as a step
-- relation: the loop advances by one piece of synchronous code, or something else happens in
-- between. Promises are numbers. The flags may change at any time, except `concurrency`.
pub mod Fixed
pub mod Concurrency
use bullmq.Shared.{
  ℕ, zero, suc, ◌+◌, ◌==◌, ◌≡◌, ltb, if◌then◌else◌, not, ◌&&◌, ◌||◌, Bool, true, false, List, [],
  ◌∷◌, Option, none, some,
}
use bullmq.Fifo.Queue
use bullmq.Fifo.Queue.{
  Queue, Fetch, nothing, value, awaits, add, fulfil, reject, fetch, fetch_loop, num_total,
  num_queued,
}
use bullmq.Fifo.Queue.Waiting.{count}

-- What the loop reads: whether the worker is closing or paused, whether a call of `_getNextJob`
-- waits, whether there is a rate limit, and whether `blockUntil` is set.
pub record Flags : Type 0 where
  pub closing : Bool
  pub paused : Bool
  pub waiting : Bool
  pub rate_limited : Bool
  pub block_until : Bool

-- Where the loop is: at the condition of the outer loop, at that of the inner one, after `add`, at
-- `await fetchedJob`, before and in `fetch`, after it with what it returned, in the wait for the
-- rate limit, past the outer loop, or ended by the error of a rejected `fetchedJob`.
pub data Phase (J : Type 0) : Type 0 where
  outer inner fetching limited finished broken : Phase J
  added expects : ℕ → Phase J
  parked : ℕ → Phase J
  took : Option J → Phase J

pub record Loop (J : Type 0) : Type 0 where
  pub queue : Queue (Option J)
  pub phase : Phase J
  pub flags : Flags
  pub concurrency : ℕ
  -- The next promise.
  pub next : ℕ
  -- What the promises that are fulfilled were resolved to.
  pub values : List (ℕ × Option J)
  -- The promises that are rejected.
  pub rejected : List ℕ

abbrev pub is_rejected : ℕ → List ℕ → Bool
is_rejected p [] = false
is_rejected p (q ∷ qs) = q == p || is_rejected p qs

module _ {J : Type 0} where
  abbrev pub value_at : ℕ → List (ℕ × Option J) → Option (Option J)
  value_at p [] = none
  value_at p ((q, v) ∷ vs) = if q == p then some v else value_at p vs

  abbrev pub is_job : Option J → Bool
  is_job none = false
  is_job (some j) = true

  -- `void` and a value `undefined` are not told apart.
  abbrev pub job_of : Option (Option J) → Option J
  job_of none = none
  job_of (some v) = v

  -- The next promise is added to the queue.
  unfoldable pub push_promise : Phase J → Loop J → Loop J
  push_promise phase l = record l { queue = add l.next l.queue; next = suc l.next; phase = phase }

  -- The condition of the inner loop, and its body up to `add`.
  unfoldable pub try_fetch : Loop J → Loop J
  unfolding push_promise
  try_fetch l =
      if not l.flags.closing
        && not l.flags.paused
        && not l.flags.waiting
        && ltb (num_total l.queue) l.concurrency
        && not l.flags.rate_limited
      then push_promise (added l.next) l
      else record l { phase = fetching }

  -- The inner loop after `await fetchedJob`.
  unfoldable pub after_fetched : Option J → Loop J → Loop J
  after_fetched job l = record l {
    phase =
        if not (is_job job) && ltb 1 (num_total l.queue)
        then fetching
        else if l.flags.block_until
        then fetching
        else inner;
  }

  -- What a call of `fetch` comes to.
  unfoldable pub after_fetch : Fetch (Option J) × Queue (Option J) → Loop J → Loop J
  after_fetch (nothing, q) l = record l { queue = q; phase = took none }
  after_fetch (value v, q) l = record l { queue = q; phase = took (job_of v) }
  after_fetch (awaits g, q) l = record l { queue = q; phase = parked g }

  -- The end of the `do` loop, and what follows it: a job is processed, or nothing is left to do.
  unfoldable pub after_took : Option J → Loop J → Loop J
  unfolding push_promise
  after_took (some j) l = push_promise outer l
  after_took none l = record l { phase = if ltb 0 (num_queued l.queue) then fetching else limited }

  unfoldable pub advance_from : Phase J → Loop J → Loop J
  unfolding try_fetch after_fetched after_fetch after_took
  advance_from outer l = record l {
    phase =
        if not l.flags.closing && not l.flags.paused || ltb 0 (num_total l.queue)
        then inner
        else finished;
  }
  advance_from inner l = try_fetch l
  advance_from (added p) l = record l {
    phase = if l.flags.waiting && ltb 1 (num_total l.queue) then fetching else expects p;
  }
  advance_from (expects p) l = elim (value_at p l.values) [
    | none ↦ record l { phase = if is_rejected p l.rejected then broken else expects p }
    | some job ↦ after_fetched job l
  ]
  advance_from fetching l = after_fetch (fetch l.queue) l
  advance_from (parked g) l =
      if ltb g l.queue.generation then after_fetch (fetch_loop l.queue) l else l
  advance_from (took job) l = after_took job l
  advance_from limited l = record l { phase = outer }
  advance_from finished l = l
  advance_from broken l = l

  unfoldable pub advance : Loop J → Loop J
  unfolding advance_from
  advance l = advance_from l.phase l

  unfoldable pub start : ℕ → Flags → Loop J
  start concurrency flags = record {
    queue = Queue.new false;
    phase = outer;
    flags = flags;
    concurrency = concurrency;
    next = 0;
    values = [];
    rejected = [];
  }

  -- The state after a promise is fulfilled.
  abbrev pub resolve : ℕ → Option J → Loop J → Loop J
  resolve p v l = record l { queue = fulfil p v l.queue; values = (p, v) ∷ l.values }

  -- A step: of the loop, of the flags, or of a promise that is pending.
  pub data Step : Loop J → Loop J → Type 0 where
    advances : (l : Loop J) → Step l (advance l)
    changes : (f : Flags) (l : Loop J) → Step l (record l { flags = f })
    fulfils :
        (p : ℕ) (v : Option J) (l : Loop J) → count p l.queue.pending ≡ 1 → Step l (resolve p v l)
    rejects :
        (p : ℕ) (l : Loop J)
        → count p l.queue.pending ≡ 1
        → Step l (record l { queue = reject p l.queue; rejected = p ∷ l.rejected })

  pub data Reaches (l : Loop J) : Loop J → Type 0 where
    here : Reaches l l
    onward : (m n : Loop J) → Reaches l m → Step m n → Reaches l n

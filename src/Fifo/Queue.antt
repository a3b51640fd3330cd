-- ===== src/Fifo/Queue.antt =====
-- `AsyncFifoQueue` of src/classes/async-fifo-queue.ts. Promises are numbers. `generation` counts
-- the calls of `newPromise`: the current `nextPromise` is unsettled, every earlier one is settled.
pub mod Order
pub mod Waiting
pub mod Counting
use bullmq.Shared.{
  ℕ, ◌+◌, ◌==◌, ltb, if◌then◌else◌, Bool, true, false, not, ◌&&◌, List, [], ◌∷◌, ◌++◌, Option, none,
  some, any, keep, length,
}
use bullmq.Fifo.LinkedList
use bullmq.Fifo.LinkedList.{LinkedList, Node}

-- The operations of a `Set` of promises.
unfoldable pub include : ℕ → List ℕ → List ℕ
include p ps = if any (λ q. q == p) ps then ps else ps ++ p ∷ []

unfoldable pub exclude : ℕ → List ℕ → List ℕ
exclude p ps = keep (λ q. not (q == p)) ps

pub record Queue {ℓ} (A : Type ℓ) : Type ℓ where
  pub ignore_errors : Bool
  pub queue : LinkedList (Option A)
  pub pending : List ℕ
  pub generation : ℕ

-- How a call of `fetch` goes on: it returns because there is nothing to wait for, it returns a
-- value of the queue (`none` is `undefined`), or it awaits the `nextPromise` of that generation.
pub data Fetch {ℓ} (A : Type ℓ) : Type ℓ where
  nothing : Fetch A
  value : Option A → Fetch A
  awaits : ℕ → Fetch A

-- One consumer, which calls `fetch` again and again. `waiting` is the generation that its open
-- call awaits, `delivered` what its calls have returned from the queue.
pub record World {ℓ} (A : Type ℓ) : Type ℓ where
  pub state : Queue A
  pub waiting : Option ℕ
  pub delivered : List (Option A)

-- What happens next: a promise is added or settles, or the consumer gets its turn.
pub data Event {ℓ} (A : Type ℓ) : Type ℓ where
  adds : ℕ → Event A
  fulfils : ℕ → A → Event A
  rejects : ℕ → Event A
  turn : Event A

module _ {ℓ} {A : Type ℓ} where
  unfoldable pub new : Bool → Queue A
  new ignore = record {
    ignore_errors = ignore;
    queue = LinkedList.empty;
    pending = [];
    generation = 1;
  }

  unfoldable pub num_total : Queue A → ℕ
  num_total q = length q.pending + q.queue.length

  unfoldable pub num_pending : Queue A → ℕ
  num_pending q = length q.pending

  unfoldable pub num_queued : Queue A → ℕ
  num_queued q = q.queue.length

  unfoldable pub new_promise : Queue A → Queue A
  new_promise q = record q { generation = q.generation + 1 }

  unfoldable pub add : ℕ → Queue A → Queue A
  unfolding include
  add p q = record q { pending = include p q.pending }

  -- The callback of `.then`: the promise `p` was resolved with `v`.
  unfoldable pub fulfil : ℕ → A → Queue A → Queue A
  unfolding exclude new_promise
  fulfil p v q =
      let q' = record q { pending = exclude p q.pending } in
      let woken = if q'.queue.length == 0 then new_promise q' else q' in
      record woken { queue = LinkedList.push (some v) woken.queue }

  -- The callback of `.catch`: the promise `p` was rejected.
  unfoldable pub reject : ℕ → Queue A → Queue A
  unfolding exclude new_promise
  reject p q =
      let q' = if q.ignore_errors then record q { queue = LinkedList.push none q.queue } else q in
      new_promise (record q' { pending = exclude p q'.pending })

  abbrev value_of : Option (Node (Option A)) → Option A
  value_of none = none
  value_of (some n) = n.value

  -- The `while` loop of `fetch` and what follows it, up to the next `await`.
  unfoldable pub fetch_loop : Queue A → Fetch A × Queue A
  fetch_loop q =
      let (node, rest) = LinkedList.shift q.queue in
      if q.queue.length == 0
      then (awaits q.generation, q)
      else (value (value_of node), record q { queue = rest })

  unfoldable pub fetch : Queue A → Fetch A × Queue A
  unfolding fetch_loop
  fetch q = if length q.pending == 0 && q.queue.length == 0 then (nothing, q) else fetch_loop q

  unfoldable pub deliver : Fetch A × Queue A → World A → World A
  deliver (nothing, q) w = record w { state = q; waiting = none }
  deliver (value v, q) w = record { state = q; waiting = none; delivered = w.delivered ++ v ∷ [] }
  deliver (awaits g, q) w = record w { state = q; waiting = some g }

  -- A consumer that waits goes on once the promise that it awaits has settled.
  unfoldable pub resume : Option ℕ → World A → World A
  unfolding deliver
  resume none w = deliver (fetch w.state) w
  resume (some g) w = if ltb g w.state.generation then deliver (fetch_loop w.state) w else w

  unfoldable pub step : Event A → World A → World A
  unfolding resume
  step (adds p) w = record w { state = add p w.state }
  step (fulfils p v) w = record w { state = fulfil p v w.state }
  step (rejects p) w = record w { state = reject p w.state }
  step turn w = resume w.waiting w

  unfoldable pub run : List (Event A) → World A → World A
  run [] w = w
  run (e ∷ es) w = run es (step e w)

  unfoldable pub start : Bool → World A
  start ignore = record { state = new ignore; waiting = none; delivered = [] }

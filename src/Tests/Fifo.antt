-- ===== src/Tests/Fifo.antt =====
-- Runs of the queue of src/classes/async-fifo-queue.ts.
use bullmq.Shared.{ℕ, ◌≡◌, refl, true, false, List, [], ◌∷◌, ◌++◌, Option, some}
use bullmq.Fifo.LinkedList.{LinkedList}
use bullmq.Fifo.LinkedList.Holds.{Holds}
use bullmq.Fifo.Queue.{
  Queue, World, Event, adds, fulfils, rejects, turn, add, fulfil, reject, fetch, step, run, start,
  nothing, num_total,
}
use bullmq.Fifo.Queue.Order.{settled, run_in_order}
use bullmq.Fifo.Queue.Waiting.{no_lost_wakeup, fetch_hangs}

-- Promises 1, 2 and 3: 2 is resolved first, and the consumer waits for it.
abbrev order : List (Event ℕ)
order = adds 1 ∷ adds 2 ∷ turn ∷ adds 3 ∷ fulfils 2 20 ∷ fulfils 1 10 ∷ turn ∷ rejects 3 ∷ turn ∷ []

delivers_in_order : (run order (start true)).delivered ≡ some 20 ∷ some 10 ∷ []
unfolding run step start fetch add bullmq.Fifo.Queue.new bullmq.Fifo.LinkedList.empty fulfil
    bullmq.Fifo.LinkedList.push reject bullmq.Fifo.LinkedList.shift
delivers_in_order = refl

keeps_the_error : num_total (run order (start true)).state ≡ 1
unfolding run step start num_total fetch add bullmq.Fifo.Queue.new bullmq.Fifo.LinkedList.empty
    fulfil bullmq.Fifo.LinkedList.push reject bullmq.Fifo.LinkedList.shift
keeps_the_error = refl

run_in_order_example :
    (queued : List (Option ℕ)) × Holds (run order (start true)).state.queue queued
    × ((run order (start true)).delivered ++ queued ≡ settled true order)
run_in_order_example = run_in_order true order

abbrev waiting : List (Event ℕ)
waiting = adds 1 ∷ turn ∷ []

no_lost_wakeup_example : (run waiting (start false)).state.queue.length ≡ 0
unfolding fetch add bullmq.Fifo.Queue.new bullmq.Fifo.LinkedList.empty
no_lost_wakeup_example = no_lost_wakeup false waiting (unfold run step start in refl)

lone : World ℕ
lone = run (adds 7 ∷ []) (start false)

fetch_hangs_example :
    let w' = run (turn ∷ rejects 7 ∷ turn ∷ []) lone in
    (w'.waiting ≡ some w'.state.generation)
    × (num_total w'.state ≡ 0)
    × ((fetch w'.state).0 ≡ nothing)
    × (step turn w' ≡ w')
unfolding lone run step start add bullmq.Fifo.Queue.new bullmq.Fifo.LinkedList.empty
fetch_hangs_example = fetch_hangs 7 lone refl refl refl refl

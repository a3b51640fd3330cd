-- ===== src/Fifo/Queue/Order.antt =====
-- `AsyncFifoQueue` of src/classes/async-fifo-queue.ts delivers in the order of settlement, and
-- counts what it holds.
use bullmq.Shared.{
  ltb, ◌&&◌, ℕ, suc, ◌==◌, ◌≡◌, refl, ◌∙◌, Bool, true, false, List, [], ◌∷◌, ◌++◌, append_assoc,
  append-nil, Option, none, some, arith, length, Bool-cases, inl, inr,
}
use bullmq.Fifo.LinkedList
use bullmq.Fifo.LinkedList.{LinkedList, Node}
use bullmq.Fifo.LinkedList.Holds.{Holds, empty-Holds, push-Holds, shift-Shifts}
use bullmq.Fifo.Queue.{
  Queue, World, Event, adds, fulfils, rejects, turn, new, add, fulfil, reject, fetch_loop, fetch,
  deliver, resume, step, run, start, value, awaits,
}

module _ {ℓ} {A : Type ℓ} where
  -- The values that the promises settled to, in the order in which they settled.
  abbrev pub settled : Bool → List (Event A) → List (Option A)
  settled ignore [] = []
  settled ignore (adds p ∷ es) = settled ignore es
  settled ignore (fulfils p v ∷ es) = some v ∷ settled ignore es
  settled true (rejects p ∷ es) = none ∷ settled true es
  settled false (rejects p ∷ es) = settled false es
  settled ignore (turn ∷ es) = settled ignore es

  -- What was delivered, followed by what is queued, is `seen`.
  record Accounts (ignore : Bool) (w : World A) (seen : List (Option A)) : Type ℓ where
    queued : List (Option A)
    holds : Holds w.state.queue queued
    same : w.delivered ++ queued ≡ seen
    mode : w.state.ignore_errors ≡ ignore

  start-Accounts : (ignore : Bool) → Accounts ignore (start ignore) []
  unfolding start new
  start-Accounts ignore = record { queued = []; holds = empty-Holds; same = refl; mode = refl }

  fetch_loop_nil : (q : Queue A) → q.queue.length ≡ 0 → fetch_loop q ≡ (awaits q.generation, q)
  unfolding fetch_loop
  fetch_loop_nil q e = ground arith

  fetch_loop_cons :
      (q : Queue A) (k : ℕ) (n : Node (Option A))
      → q.queue.length ≡ suc k
      → (LinkedList.shift q.queue).0 ≡ some n
      → fetch_loop q ≡ (value n.value, record q { queue = (LinkedList.shift q.queue).1 })
  unfolding fetch_loop
  fetch_loop_cons q k n e h = ground arith

  fetch_loop-Accounts :
      (ignore : Bool) (w : World A) (xs : List (Option A))
      → Holds w.state.queue xs
      → w.state.ignore_errors ≡ ignore
      → Accounts ignore (deliver (fetch_loop w.state) w) (w.delivered ++ xs)
  unfolding deliver
  fetch_loop-Accounts ignore w [] h m =
      rw (fetch_loop_nil w.state h.counted)
        (record { queued = []; holds = h; same = refl; mode = m })
  fetch_loop-Accounts ignore w (x ∷ xs) h m =
      let (n, e, v, rest) = shift-Shifts w.state.queue (x ∷ xs) h in
      rw (fetch_loop_cons w.state (length xs) n h.counted e) (record {
        queued = xs;
        holds = rest;
        same = rw v (append_assoc w.delivered (x ∷ []) xs);
        mode = m;
      })

  resume-Accounts :
      (ignore : Bool) (o : Option ℕ) (w : World A) (seen : List (Option A))
      → Accounts ignore w seen
      → Accounts ignore (resume o w) seen
  unfolding resume fetch deliver
  resume-Accounts ignore none w seen a =
      let polled = rw a.same at (fetch_loop-Accounts ignore w a.queued a.holds a.mode) in
      elim (Bool-cases (length w.state.pending == 0 && w.state.queue.length == 0)) [
        | inl idle ↦
            rw idle (record { queued = a.queued; holds = a.holds; same = a.same; mode = a.mode })
        | inr busy ↦ rw busy polled
      ]
  resume-Accounts ignore (some g) w seen a =
      let polled = rw a.same at (fetch_loop-Accounts ignore w a.queued a.holds a.mode) in
      elim (Bool-cases (ltb g w.state.generation)) [
        | inl woken ↦ rw woken polled
        | inr parked ↦ rw parked a
      ]

  fulfil_queue :
      (p : ℕ) (v : A) (q : Queue A)
      → ((fulfil p v q).queue ≡ LinkedList.push (some v) q.queue)
        × ((fulfil p v q).ignore_errors ≡ q.ignore_errors)
  unfolding fulfil
  fulfil_queue p v q = elim (Bool-cases (q.queue.length == 0)) [
    | inl e ↦ rw e (refl, refl)
    | inr e ↦ rw e (refl, refl)
  ]

  step-Accounts :
      (ignore : Bool) (w : World A) (e : Event A) (seen : List (Option A))
      → Accounts ignore w seen
      → Accounts ignore (step e w) (seen ++ settled ignore (e ∷ []))
  unfolding step add reject
  step-Accounts ignore w (adds p) seen a =
      rw append-nil (record { queued = a.queued; holds = a.holds; same = a.same; mode = a.mode })
  step-Accounts ignore w (fulfils p v) seen a = record {
    queued = a.queued ++ some v ∷ [];
    holds = rw (fulfil_queue p v w.state).0 (push-Holds (some v) w.state.queue a.queued a.holds);
    same = rw (← append_assoc, a.same);
    mode = (fulfil_queue p v w.state).1 ∙ a.mode;
  }
  step-Accounts true w (rejects p) seen a =
      rw (a.mode, reject)
        (record {
          queued = a.queued ++ none ∷ [];
          holds = push-Holds none w.state.queue a.queued a.holds;
          same = rw (← append_assoc, a.same);
          mode = refl;
        })
  step-Accounts false w (rejects p) seen a =
      rw (append-nil, a.mode, reject)
        (record { queued = a.queued; holds = a.holds; same = a.same; mode = refl })
  step-Accounts ignore w turn seen a = rw append-nil (resume-Accounts ignore w.waiting w seen a)

  settled_cons :
      (ignore : Bool) (e : Event A) (es : List (Event A))
      → settled ignore (e ∷ es) ≡ settled ignore (e ∷ []) ++ settled ignore es
  settled_cons ignore (adds p) es = refl
  settled_cons ignore (fulfils p v) es = refl
  settled_cons true (rejects p) es = refl
  settled_cons false (rejects p) es = refl
  settled_cons ignore turn es = refl

  run-Accounts :
      (ignore : Bool) (w : World A) (es : List (Event A)) (seen : List (Option A))
      → Accounts ignore w seen
      → Accounts ignore (run es w) (seen ++ settled ignore es)
  unfolding run
  run-Accounts ignore w [] seen a = rw append-nil a
  run-Accounts ignore w (e ∷ es) seen a =
      rw (settled_cons ignore e es, ← append_assoc)
        (run-Accounts ignore (step e w) es _ (step-Accounts ignore w e seen a))

  -- After any sequence of additions, settlements and turns of the consumer, what the consumer has
  -- been given, followed by the values that the list of nodes still holds, is what the
  -- promises settled to, in the order in which they settled: nothing is lost, repeated or
  -- overtaken. A rejection counts as `undefined` if errors are ignored, and for nothing if not.
  pub run_in_order :
      (ignore : Bool) (es : List (Event A))
      → let w = run es (start ignore) in
        (queued : List (Option A)) × Holds w.state.queue queued
        × (w.delivered ++ queued ≡ settled ignore es)
  run_in_order ignore es =
      let a = run-Accounts ignore (start ignore) es [] (start-Accounts ignore) in
      (a.queued, a.holds, a.same)

-- ===== src/Worker/MainLoop/Fixed.antt =====
-- What `mainLoop` of src/classes/worker.ts does not change: its limit.
use bullmq.Shared.{Option, none, some, Option-cases, inl, inr, ◌≡◌, refl, ◌∙◌, arith}
use bullmq.Fifo.Queue.{Queue, Fetch, nothing, value, awaits, fetch, fetch_loop}
use bullmq.Worker.MainLoop.{
  Phase, outer, inner, fetching, limited, finished, broken, added, expects, parked, took, Loop,
  push_promise, try_fetch, after_fetched, after_fetch, after_took, advance_from, advance, value_at,
  Step, advances, changes, fulfils, rejects, Reaches, here, onward,
}

module _ {J : Type 0} where
  after_fetch-concurrency :
      (r : Fetch (Option J) × Queue (Option J)) (l : Loop J)
      → (after_fetch r l).concurrency ≡ l.concurrency
  unfolding after_fetch
  after_fetch-concurrency (nothing, q) l = refl
  after_fetch-concurrency (value v, q) l = refl
  after_fetch-concurrency (awaits g, q) l = refl

  advance_from-concurrency :
      (phase : Phase J) (l : Loop J) → (advance_from phase l).concurrency ≡ l.concurrency
  unfolding advance_from try_fetch after_fetched after_took push_promise
  advance_from-concurrency inner l = ground arith
  advance_from-concurrency (expects p) l = elim (Option-cases (value_at p l.values)) [
    | inl e ↦ rw (e, advance_from) refl
    | inr (job, e) ↦ rw (e, advance_from) refl
  ]
  advance_from-concurrency fetching l = after_fetch-concurrency (fetch l.queue) l
  advance_from-concurrency (parked g) l =
      ground (arith, after_fetch-concurrency (fetch_loop l.queue) l)
  advance_from-concurrency (took none) l = refl
  advance_from-concurrency (took (some j)) l = refl
  advance_from-concurrency outer l = refl
  advance_from-concurrency (added p) l = refl
  advance_from-concurrency limited l = refl
  advance_from-concurrency finished l = refl
  advance_from-concurrency broken l = refl

  Step-concurrency : (l m : Loop J) → Step l m → m.concurrency ≡ l.concurrency
  unfolding advance
  Step-concurrency _ _ (advances l) = advance_from-concurrency l.phase l
  Step-concurrency _ _ (changes f l) = refl
  Step-concurrency _ _ (fulfils p v l one) = refl
  Step-concurrency _ _ (rejects p l one) = refl

  pub Reaches-concurrency : (l m : Loop J) → Reaches l m → m.concurrency ≡ l.concurrency
  Reaches-concurrency l _ here = refl
  Reaches-concurrency l _ (onward m n r s) = Step-concurrency m n s ∙ Reaches-concurrency l m r

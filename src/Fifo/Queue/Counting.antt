-- ===== src/Fifo/Queue/Counting.antt =====
-- How the operations of `AsyncFifoQueue` of src/classes/async-fifo-queue.ts change what is pending,
-- and what a `fetch` takes out.
use bullmq.Shared.{
  ℕ, ◌+◌, ◌≤◌, ◌==◌, if◌then◌else◌, ◌&&◌, List, [], ◌∷◌, ◌++◌, length, Bool-cases, inl, inr, ◌≡◌,
  refl, arith,
}
use bullmq.Fifo.Queue.{
  Queue, Fetch, value, fulfil, reject, fetch, fetch_loop, num_total, include, exclude,
}
use bullmq.Fifo.Queue.Waiting.{count, count-any, length-shift}

count-append : (p : ℕ) (xs ys : List ℕ) → count p (xs ++ ys) ≡ count p xs + count p ys
count-append p [] ys = omega arith
count-append p (x ∷ xs) ys = ground (arith, count-append p xs ys)

pub count-include :
    (p q : ℕ) (ps : List ℕ)
    → count p (include q ps) ≡ count p ps + (if q == p && count q ps == 0 then 1 else 0)
unfolding include
count-include p q ps = ground (arith, count-any q ps, count-append p ps (q ∷ []))

pub count-exclude : (p q : ℕ) (ps : List ℕ) → count p (exclude q ps) ≤ count p ps
unfolding exclude
count-exclude p q [] = omega arith
count-exclude p q (x ∷ ps) = ground (arith, count-exclude p q ps)

module _ {ℓ} {A : Type ℓ} where
  abbrev pub gained : Fetch A → ℕ
  gained (value v) = 1
  gained _ = 0

  pub fetch_loop_lem :
      (q : Queue A)
      → (gained (fetch_loop q).0 + num_total (fetch_loop q).1 ≡ num_total q)
        × ((fetch_loop q).1.pending ≡ q.pending)
  unfolding fetch_loop num_total
  fetch_loop_lem q = ground (arith, length-shift q.queue)

  pub fetch_lem :
      (q : Queue A)
      → (gained (fetch q).0 + num_total (fetch q).1 ≡ num_total q)
        × ((fetch q).1.pending ≡ q.pending)
  unfolding fetch num_total
  fetch_lem q = elim (Bool-cases (length q.pending == 0 && q.queue.length == 0)) [
    | inl idle ↦ rw idle (omega arith, refl)
    | inr busy ↦ rw busy (fetch_loop_lem q)
  ]

  pub pending-fulfil : (p : ℕ) (v : A) (q : Queue A) → (fulfil p v q).pending ≡ exclude p q.pending
  unfolding fulfil
  pending-fulfil p v q = ground arith

  pub pending-reject : (p : ℕ) (q : Queue A) → (reject p q).pending ≡ exclude p q.pending
  unfolding reject
  pending-reject p q = ground arith

-- ===== src/Fifo/Queue/Waiting.antt =====
-- When a call of `fetch` waits, and how many entries `AsyncFifoQueue` of
-- src/classes/async-fifo-queue.ts counts.
use bullmq.Shared.{
  ℕ, suc, ◌+◌, ◌-◌, ◌≤◌, ◌<◌, ◌==◌, ltb, if◌then◌else◌, ◌≡◌, refl, ap, ◌∙◌, ◌&&◌, ◌⊎◌, inl, inr,
  Bool, false, List, [], ◌∷◌, Option, none, some, arith, length, length-append, any, Bool-cases,
}
use bullmq.Fifo.LinkedList
use bullmq.Fifo.LinkedList.{LinkedList}
use bullmq.Fifo.Queue.{
  Queue, World, Event, adds, fulfils, rejects, turn, add, fulfil, reject, fetch_loop, fetch,
  deliver, resume, step, run, start, nothing, include, exclude, num_total,
}

module _ {ℓ} {A : Type ℓ} where
  length-push : (v : A) (l : LinkedList A) → (LinkedList.push v l).length ≡ l.length + 1
  unfolding LinkedList.push
  length-push v l = ground arith

  pub length-shift : (l : LinkedList A) → (LinkedList.shift l).1.length ≡ l.length - 1
  unfolding LinkedList.shift
  length-shift l = ground arith

  -- A consumer waits for the current promise only while nothing is queued.
  abbrev Attentive : Option ℕ → Queue A → Type 0
  Attentive none q = Unit
  Attentive (some g) q = (g ≤ q.generation) × ((g < q.generation) ⊎ (q.queue.length ≡ 0))

  add-Attentive : (o : Option ℕ) (p : ℕ) (q : Queue A) → Attentive o q → Attentive o (add p q)
  unfolding add
  add-Attentive none p q h = tt
  add-Attentive (some g) p q h = h

  fulfil-Attentive :
      (o : Option ℕ) (p : ℕ) (v : A) (q : Queue A) → Attentive o q → Attentive o (fulfil p v q)
  unfolding fulfil
  fulfil-Attentive none p v q h = tt
  fulfil-Attentive (some g) p v q h = ground arith

  reject-Attentive : (o : Option ℕ) (p : ℕ) (q : Queue A) → Attentive o q → Attentive o (reject p q)
  unfolding reject
  reject-Attentive none p q h = tt
  reject-Attentive (some g) p q h = ground arith

  fetch_loop-Attentive :
      (w : World A) → let w' = deliver (fetch_loop w.state) w in Attentive w'.waiting w'.state
  unfolding deliver fetch_loop
  fetch_loop-Attentive w = ground arith

  resume-Attentive :
      (o : Option ℕ) (w : World A)
      → w.waiting ≡ o
      → Attentive o w.state
      → Attentive (resume o w).waiting (resume o w).state
  unfolding resume fetch deliver
  resume-Attentive none w e h =
      elim (Bool-cases (length w.state.pending == 0 && w.state.queue.length == 0)) [
        | inl idle ↦ rw idle tt
        | inr busy ↦ rw busy (fetch_loop-Attentive w)
      ]
  resume-Attentive (some g) w e h = elim (Bool-cases (ltb g w.state.generation)) [
    | inl woken ↦ rw woken (fetch_loop-Attentive w)
    | inr parked ↦ rw (parked, e) h
  ]

  step-Attentive :
      (e : Event A) (w : World A)
      → Attentive w.waiting w.state
      → Attentive (step e w).waiting (step e w).state
  unfolding step add
  step-Attentive (adds p) w h = add-Attentive w.waiting p w.state h
  step-Attentive (fulfils p v) w h = fulfil-Attentive w.waiting p v w.state h
  step-Attentive (rejects p) w h = reject-Attentive w.waiting p w.state h
  step-Attentive turn w h = resume-Attentive w.waiting w refl h

  run-Attentive :
      (es : List (Event A)) (w : World A)
      → Attentive w.waiting w.state
      → Attentive (run es w).waiting (run es w).state
  unfolding run
  run-Attentive [] w h = h
  run-Attentive (e ∷ es) w h = run-Attentive es (step e w) (step-Attentive e w h)

  Attentive-current :
      (o : Option ℕ) (q : Queue A) → Attentive o q → o ≡ some q.generation → q.queue.length ≡ 0
  Attentive-current none q h e = cc
  Attentive-current (some g) q h e = ground arith

  -- No wake-up is lost: after any sequence of events, a consumer that waits for the current promise
  -- has nothing to fetch.
  pub no_lost_wakeup :
      (ignore : Bool) (es : List (Event A))
      → let w = run es (start ignore) in
        w.waiting ≡ some w.state.generation → w.state.queue.length ≡ 0
  no_lost_wakeup ignore es h =
      let w = run es (start ignore) in
      Attentive-current w.waiting w.state (run-Attentive es (start ignore) (unfold start in tt)) h

-- How often `p` is pending.
abbrev pub count : ℕ → List ℕ → ℕ
count p [] = 0
count p (q ∷ qs) = let rest = count p qs in if q == p then suc rest else rest

length-exclude : (p : ℕ) (ps : List ℕ) → length (exclude p ps) + count p ps ≡ length ps
unfolding exclude
length-exclude p [] = refl
length-exclude p (q ∷ ps) = ground (arith, length-exclude p ps)

pub count-any : (p : ℕ) (ps : List ℕ) → any (λ q. q == p) ps ≡ ltb 0 (count p ps)
count-any p [] = refl
count-any p (q ∷ ps) = ground (arith, count-any p ps)

length-include :
    (p : ℕ) (ps : List ℕ)
    → length (include p ps) ≡ length ps + (if ltb 0 (count p ps) then 0 else 1)
unfolding include
length-include p ps = ground (arith, count-any p ps, length-append ps (p ∷ []))

module _ {ℓ} {A : Type ℓ} where
  -- What each operation does to the total. `add` counts a promise that is not pending already. A
  -- promise that is pending once keeps its place in the total when it is resolved, and when it is
  -- rejected under `ignore_errors`; a rejection that is not ignored takes it out. A `fetch` takes
  -- one value out if one is queued, and leaves the total alone otherwise.
  pub num_total_steps :
      (p : ℕ) (v : A) (q : Queue A)
      → (num_total (add p q) ≡ num_total q + (if ltb 0 (count p q.pending) then 0 else 1))
        × (num_total (fulfil p v q) + count p q.pending ≡ num_total q + 1)
        × (num_total (reject p q) + count p q.pending
            ≡ num_total q + (if q.ignore_errors then 1 else 0))
        × (num_total (fetch q).1 + (if q.queue.length == 0 then 0 else 1) ≡ num_total q)
  unfolding num_total add fulfil reject fetch fetch_loop
  num_total_steps p v q = (
    ground (arith, length-include p q.pending),
    ground (arith, length-exclude p q.pending, length-push (some v) q.queue),
    ground (arith, length-exclude p q.pending, length-push none q.queue),
    ground (arith, length-shift q.queue),
  )

  turn_parks :
      (p : ℕ) (w : World A)
      → w.waiting ≡ none
      → w.state.pending ≡ p ∷ []
      → w.state.queue.length ≡ 0
      → step turn w ≡ record w { waiting = some w.state.generation }
  unfolding step resume fetch fetch_loop deliver
  turn_parks p w idle alone empty = rw (idle, alone, empty)

  turn_parks_again :
      (g : ℕ) (w : World A)
      → w.waiting ≡ some g
      → g < w.state.generation
      → w.state.queue.length ≡ 0
      → step turn w ≡ record w { waiting = some w.state.generation }
  unfolding step resume fetch_loop deliver
  turn_parks_again g w waits lt empty = ground arith

  reject_last :
      (p : ℕ) (q : Queue A)
      → q.ignore_errors ≡ false
      → q.pending ≡ p ∷ []
      → reject p q ≡ record q { pending = []; generation = q.generation + 1 }
  unfolding reject exclude
  reject_last p q strict alone = ground arith

  abbrev stuck : World A → World A
  stuck w = record w {
    state = record w.state { pending = []; generation = w.state.generation + 1 };
    waiting = some (w.state.generation + 1);
  }

  run-stuck :
      (p : ℕ) (w : World A)
      → w.waiting ≡ none
      → w.state.ignore_errors ≡ false
      → w.state.pending ≡ p ∷ []
      → w.state.queue.length ≡ 0
      → run (turn ∷ rejects p ∷ turn ∷ []) w ≡ stuck w
  unfolding run step
  run-stuck p w idle strict alone empty =
      let g = w.state.generation in
      let rejected = record w.state { pending = []; generation = g + 1 } in
      ap (λ u. step turn (step (rejects p) u)) (turn_parks p w idle alone empty)
      ∙ ap (λ q. step turn (record w { state = q; waiting = some g }))
          (reject_last p w.state strict alone)
      ∙ turn_parks_again g (record w { state = rejected; waiting = some g }) refl (omega arith)
          empty

  fetch_idle : (q : Queue A) → q.pending ≡ [] → q.queue.length ≡ 0 → (fetch q).0 ≡ nothing
  unfolding fetch
  fetch_idle q none_pending empty = rw (none_pending, empty)

  turn_waits : (w : World A) → w.waiting ≡ some w.state.generation → step turn w ≡ w
  unfolding step resume
  turn_waits w e = ground arith

  -- A call of `fetch` may never return although nothing is pending or queued. If errors are not
  -- ignored, and the consumer calls `fetch` while `p` is the only promise that is pending and
  -- nothing is queued, then after the rejection of `p` it waits again: the total is 0, a new call
  -- of `fetch` would return at once, and yet no further turn brings the open call to an end.
  pub fetch_hangs :
      (p : ℕ) (w : World A)
      → w.waiting ≡ none
      → w.state.ignore_errors ≡ false
      → w.state.pending ≡ p ∷ []
      → w.state.queue.length ≡ 0
      → let w' = run (turn ∷ rejects p ∷ turn ∷ []) w in
        (w'.waiting ≡ some w'.state.generation)
        × (num_total w'.state ≡ 0)
        × ((fetch w'.state).0 ≡ nothing)
        × (step turn w' ≡ w')
  unfolding num_total
  fetch_hangs p w idle strict alone empty =
      rw (run-stuck p w idle strict alone empty)
        (refl, empty_total, fetch_idle (stuck w).state refl empty, turn_waits (stuck w) refl)
    where
      empty_total : 0 + w.state.queue.length ≡ 0
      empty_total = omega arith

-- ===== src/Worker/MainLoop/Concurrency.antt =====
-- How many jobs `mainLoop` of src/classes/worker.ts has in hand, and when it ends.
use bullmq.Shared.{
  ℕ, suc, ◌+◌, ◌≤◌, ltb, if◌then◌else◌, not, ◌&&◌, ◌||◌, Bool, true, false, List, ◌∷◌, Option, none,
  some, Bool-cases, Option-cases, inl, inr, ◌≡◌, refl, ap, arith, subst,
}
use bullmq.Fifo.Queue
use bullmq.Fifo.Queue.{
  Queue, Fetch, nothing, value, awaits, add, fulfil, reject, fetch, fetch_loop, num_total,
  num_queued, include, exclude,
}
use bullmq.Fifo.Queue.Counting.{
  gained, count-include, count-exclude, fetch_lem, fetch_loop_lem, pending-fulfil, pending-reject,
}
use bullmq.Fifo.Queue.Waiting.{count, num_total_steps}
use bullmq.Worker.MainLoop.Fixed.{Reaches-concurrency}
use bullmq.Worker.MainLoop.{
  Flags, Phase, outer, inner, fetching, limited, finished, broken, is_rejected, added, expects,
  parked, took, Loop, push_promise, try_fetch, after_fetched, after_fetch, after_took, advance_from,
  advance, start, value_at, Step, advances, changes, fulfils, rejects, Reaches, here, onward,
  is_job, job_of,
}

ended_lem : (b : Bool) (n : ℕ) → b || ltb 0 n ≡ false → n ≡ 0
ended_lem b n h = ground arith

guard_lem : (a b c d : Bool) (n m : ℕ) → a && b && c && ltb n m && d ≡ true → suc n ≤ m
guard_lem a b c d n m h = ground arith

module _ {J : Type 0} where
  -- A job that was taken and not yet added again.
  abbrev pub held : Phase J → ℕ
  held (took (some j)) = 1
  held _ = 0

  -- What is left to do when the loop has ended.
  abbrev Rest : Phase J → ℕ → Type 0
  Rest finished n = n ≡ 0
  Rest _ n = Unit

  record IsSound (l : Loop J) : Type 0 where
    bound : held l.phase + num_total l.queue ≤ l.concurrency
    single : (p : ℕ) → count p l.queue.pending ≤ 1
    fresh : (p : ℕ) → l.next ≤ p → count p l.queue.pending ≡ 0
    rest : Rest l.phase (num_total l.queue)

  -- A change that keeps the pending promises or takes some out.
  shrinks :
      (l m : Loop J)
      → IsSound l
      → ((p : ℕ) → count p m.queue.pending ≤ count p l.queue.pending)
      → m.next ≡ l.next
      → held m.phase + num_total m.queue ≤ m.concurrency
      → Rest m.phase (num_total m.queue)
      → IsSound m
  shrinks l m h fewer same bound rest = record {
    bound = bound;
    single = λ p. omega (arith, h.single p, fewer p);
    fresh = λ p le. omega (arith, h.fresh p (omega arith), fewer p);
    rest = rest;
  }

  keeps_phase :
      (l : Loop J) (phase : Phase J)
      → IsSound l
      → held phase ≡ 0
      → Rest phase (num_total l.queue)
      → IsSound (record l { phase = phase })
  keeps_phase l phase h e rest =
      shrinks l (record l { phase = phase }) h (λ p. omega arith) refl (omega (arith, h.bound)) rest

  -- The loop moves on without a job in hand, and not to its end.
  moves_if :
      (b : Bool) (x y : Phase J) (l : Loop J)
      → IsSound l
      → held x ≡ 0
      → held y ≡ 0
      → Rest x (num_total l.queue)
      → Rest y (num_total l.queue)
      → IsSound (record l { phase = if b then x else y })
  moves_if true x y l h ex ey rx ry = keeps_phase l x h ex rx
  moves_if false x y l h ex ey rx ry = keeps_phase l y h ey ry

  took-held : (job : Option J) → held (took job) ≤ 1
  took-held none = omega arith
  took-held (some j) = omega arith

  push_promise-IsSound :
      (l : Loop J) (phase : Phase J)
      → IsSound l
      → held phase ≡ 0
      → Rest phase (num_total (push_promise phase l).queue)
      → suc (num_total l.queue) ≤ l.concurrency
      → IsSound (push_promise phase l)
  unfolding push_promise add
  push_promise-IsSound l phase h e rest left =
      let total = (num_total_steps l.next none l.queue).0 in
      record {
        bound = ground (arith, e, left, total);
        single = λ p. ground (arith, count-include p l.next l.queue.pending, h.single p);
        fresh = λ p le.
            ground (arith, count-include p l.next l.queue.pending, h.fresh p (omega (arith, le)));
        rest = rest;
      }

  after_fetch-IsSound :
      (r : Fetch (Option J) × Queue (Option J)) (l : Loop J)
      → IsSound l
      → gained r.0 + num_total r.1 ≡ num_total l.queue
      → r.1.pending ≡ l.queue.pending
      → IsSound (after_fetch r l)
  unfolding after_fetch
  after_fetch-IsSound (nothing, q) l h total same =
      shrinks l _ h (λ p. rw same (omega arith)) refl (omega (arith, h.bound, total)) tt
  after_fetch-IsSound (value v, q) l h total same =
      shrinks l _ h (λ p. rw same (omega arith)) refl
        (omega (arith, h.bound, total, took-held (job_of v))) tt
  after_fetch-IsSound (awaits g, q) l h total same =
      shrinks l _ h (λ p. rw same (omega arith)) refl (omega (arith, h.bound, total)) tt

  abbrev guard_of : Loop J → Bool
  guard_of l =
      not l.flags.closing
      && not l.flags.paused
      && not l.flags.waiting
      && ltb (num_total l.queue) l.concurrency
      && not l.flags.rate_limited

  advance_from-IsSound :
      (phase : Phase J) (l : Loop J) → l.phase ≡ phase → IsSound l → IsSound (advance_from phase l)
  unfolding advance_from try_fetch after_fetched after_took
  advance_from-IsSound outer l e h =
      elim (Bool-cases (not l.flags.closing && not l.flags.paused || ltb 0 (num_total l.queue))) [
        | inl on ↦ rw on (keeps_phase l inner h refl tt)
        | inr over ↦ rw over (keeps_phase l finished h refl (ended_lem _ _ over))
      ]
  advance_from-IsSound inner l e h = elim (Bool-cases (guard_of l)) [
    | inl on ↦ rw on (
        push_promise-IsSound l (added l.next) h refl tt (
          guard_lem (not l.flags.closing) (not l.flags.paused) (not l.flags.waiting)
            (not l.flags.rate_limited) _ _ on))
    | inr off ↦ rw off (keeps_phase l fetching h refl tt)
  ]
  advance_from-IsSound (added p) l e h = moves_if _ fetching (expects p) l h refl refl tt tt
  advance_from-IsSound (expects p) l e h = elim (Option-cases (value_at p l.values)) [
    | inl e' ↦
        rw (e', advance_from)
          (moves_if (is_rejected p l.rejected) broken (expects p) l h refl refl tt tt)
    | inr (job, e') ↦
        rw (e', advance_from)
          (elim (Bool-cases (not (is_job job) && ltb 1 (num_total l.queue))) [
            | inl b ↦ rw b (keeps_phase l fetching h refl tt)
            | inr b ↦ rw b (moves_if l.flags.block_until fetching inner l h refl refl tt tt)
          ])
  ]
  advance_from-IsSound fetching l e h =
      let (total, same) = fetch_lem l.queue in after_fetch-IsSound (fetch l.queue) l h total same
  advance_from-IsSound (parked g) l e h = elim (Bool-cases (ltb g l.queue.generation)) [
    | inl woken ↦
        let (total, same) = fetch_loop_lem l.queue in
        rw woken (after_fetch-IsSound (fetch_loop l.queue) l h total same)
    | inr waits ↦ rw waits h
  ]
  advance_from-IsSound (took none) l e h = moves_if _ fetching limited l h refl refl tt tt
  advance_from-IsSound (took (some j)) l e h =
      push_promise-IsSound l outer h refl tt (omega (arith, h.bound, ap held e))
  advance_from-IsSound limited l e h = keeps_phase l outer h refl tt
  advance_from-IsSound finished l e h = h
  advance_from-IsSound broken l e h = h

  Rest-le : (phase : Phase J) (m n : ℕ) → m ≤ n → Rest phase n → Rest phase m
  Rest-le finished m n le h = omega arith
  Rest-le _ m n le h = tt

  -- A promise that settles.
  settles :
      (p : ℕ) (q : Queue (Option J)) (values : List (ℕ × Option J)) (rejected : List ℕ) (l : Loop J)
      → IsSound l
      → q.pending ≡ exclude p l.queue.pending
      → num_total q ≤ num_total l.queue
      → IsSound (record l { queue = q; values = values; rejected = rejected })
  settles p q values rejected l h e le =
      shrinks l _ h (λ k. rw e (count-exclude k p l.queue.pending)) refl
        (omega (arith, h.bound, le)) (Rest-le l.phase _ _ le h.rest)

  Step-IsSound : (l m : Loop J) → Step l m → IsSound l → IsSound m
  unfolding advance
  Step-IsSound _ _ (advances l) h = advance_from-IsSound l.phase l refl h
  Step-IsSound _ _ (changes f l) h = record {
    bound = h.bound;
    single = h.single;
    fresh = h.fresh;
    rest = h.rest;
  }
  Step-IsSound _ _ (fulfils p v l one) h =
      let total = (num_total_steps p v l.queue).1 in
      settles p (fulfil p v l.queue) ((p, v) ∷ l.values) l.rejected l h (pending-fulfil p v l.queue)
        (omega (arith, total, one))
  Step-IsSound _ _ (rejects p l one) h =
      let total = (num_total_steps p none l.queue).2 in
      settles p (reject p l.queue) l.values (p ∷ l.rejected) l h (pending-reject p l.queue)
        (ground (arith, total, one))

  start-IsSound : (concurrency : ℕ) (flags : Flags) → IsSound (start concurrency flags)
  unfolding start num_total Queue.new bullmq.Fifo.LinkedList.empty
  start-IsSound concurrency flags = record {
    bound = omega arith;
    single = λ p. omega arith;
    fresh = λ p le. refl;
    rest = tt;
  }

  Reaches-IsSound : (l m : Loop J) → Reaches l m → IsSound l → IsSound m
  Reaches-IsSound l _ here h = h
  Reaches-IsSound l _ (onward m n r s) h = Step-IsSound m n s (Reaches-IsSound l m r h)

  Rest_finished : (l : Loop J) → IsSound l → l.phase ≡ finished → num_total l.queue ≡ 0
  Rest_finished l h e = subst (λ ph. Rest ph (num_total l.queue)) e h.rest

  -- In every state that the loop reaches, however the promises settle and the flags change in
  -- between, the promises that are pending, the values that are queued and the job that was taken
  -- out last are together at most `concurrency`.
  pub at_most_concurrency :
      (concurrency : ℕ) (flags : Flags) (m : Loop J)
      → Reaches (start concurrency flags) m
      → held m.phase + num_total m.queue ≤ concurrency
  unfolding start
  at_most_concurrency concurrency flags m r =
      let sound = Reaches-IsSound (start concurrency flags) m r (start-IsSound concurrency flags) in
      let same = Reaches-concurrency (start concurrency flags) m r in
      omega (arith, sound.bound, same)

  -- When the loop has ended, every job that it took has been processed: no promise is pending and
  -- no value is queued.
  pub finished_leaves_nothing :
      (concurrency : ℕ) (flags : Flags) (m : Loop J)
      → Reaches (start concurrency flags) m
      → m.phase ≡ finished
      → num_total m.queue ≡ 0
  finished_leaves_nothing concurrency flags m r e =
      Rest_finished m
        (Reaches-IsSound (start concurrency flags) m r (start-IsSound concurrency flags)) e

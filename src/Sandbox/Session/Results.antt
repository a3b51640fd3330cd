-- ===== src/Sandbox/Session/Results.antt =====
-- What the calls of `sandbox` (src/classes/sandbox.ts) settle with, as long as no call of a job's
-- method fails and the child has no uncaught exception.
use bullmq.Shared.{
  ℕ, ◌≡◌, refl, sym, ap, subst, ◌∙◌, inl, inr, if◌then◌else◌, Bool-cases, false, List, [], ◌∷◌,
  ◌++◌, some, String, All, All-map, Outcome, returns, throws,
}
use bullmq.Sandbox.{Value, JobCall, react, ChildMessage}
use bullmq.Sandbox.ChildProcessor.{
  ChildProcessor, Current, nothing, processing, answering, answer, sending, settle, settle_in, sent,
  sent_in, call_job, call_in, time_out,
}
use bullmq.Sandbox.Session.{
  Session, Event, begins, child_receives, sent_back, parent_receives, finishes, processor_ends,
  unsent, crashes, job_calls, times_out, answered, aborts, exits, processor_end, sends,
  keeps_result, live, after_exit, step, run, fresh,
}
use bullmq.Sandbox.Session.Flow.{
  running, starts, ends, ends-append, ends-append_none, Gave-last, IsExplained, IsExplained-append,
  Explains, Flow, Flow-run, Flow-cong, waiting_call, CallIsExplained-append,
}
use bullmq.Sandbox.Session.Messages.{ends-wrap_job}
use bullmq.Sandbox.Session.Sound.{IsSound, fresh-IsSound, begin-IsSound, child_receive-IsSound}
use bullmq.Sandbox.Session.Parent.{
  parent_receive-IsSound, answer_call-IsSound, abort-IsSound, exit-IsSound, finish-IsSound,
}

module _ {V : Type 0} where
  -- No call of a method of a job fails, and the child has no uncaught exception.
  abbrev pub IsUndisturbed : Event V → Type 0
  IsUndisturbed (answered n (throws e)) = ⊥
  IsUndisturbed (answered n (returns v)) = Unit
  IsUndisturbed (begins t a) = Unit
  IsUndisturbed child_receives = Unit
  IsUndisturbed (processor_ends o) = Unit
  IsUndisturbed (unsent v e) = Unit
  IsUndisturbed (crashes e) = ⊥
  IsUndisturbed sent_back = Unit
  IsUndisturbed (job_calls id c) = Unit
  IsUndisturbed (times_out id) = Unit
  IsUndisturbed parent_receives = Unit
  IsUndisturbed (aborts r) = Unit
  IsUndisturbed (exits c g) = Unit
  IsUndisturbed finishes = Unit

module _ {V : Type 0} (refusal : V) where
  answer-Explains :
      (given : List (ℕ × Outcome V (Value V))) (n : ℕ) (o : Outcome V (Value V))
      → (ends (answer o ∷ []) ≡ answer o ∷ [])
        × Explains refusal (given ++ (n, o) ∷ []) n (react (answer o))
  unfolding react
  answer-Explains given n (returns v) = (refl, inl (returns v, Gave-last n (returns v) given, refl))
  answer-Explains given n (throws e) = (refl, inl (throws e, Gave-last n (throws e) given, refl))

  -- A step of the child that neither starts nor ends a job.
  sends-IsSound :
      (p : ChildProcessor V) (ms : List (ChildMessage V)) (s : Session V)
      → running s.child.current ≡ running p.current
      → ends ms ≡ []
      → IsSound refusal s
      → IsSound refusal (sends (p, ms) s)
  sends-IsSound p ms s same silent h = record {
    flow = λ alive.
        Flow-cong refusal s.processed _ _ _ _ _ _ _ _ (h.flow alive) refl refl same
          (sym (ends-append_none s.to_parent ms silent));
    settled = h.settled;
    pending = h.pending;
    results = h.results;
  }

  processor_end_in-IsSound :
      (c : Current) (o : Outcome V (Value V)) (s : Session V)
      → s.child.current ≡ c
      → s.exited ≡ false
      → IsSound refusal s
      → IsSound refusal
          (sends (settle_in c o s.child) (record s { processed = keeps_result s o c }))
  processor_end_in-IsSound nothing o s q alive h = sends-IsSound s.child [] s refl refl h
  processor_end_in-IsSound answering o s q alive h = sends-IsSound s.child [] s refl refl h
  processor_end_in-IsSound (processing j t) o s q alive h =
      let given = s.processed ++ (j, o) ∷ [] in
      let was = Flow-run refusal s.processed _ j _ [] _ (
        subst
          (λ c.
            Flow refusal s.processed (waiting_call s.call) (starts s.to_child) (running c)
              (ends s.to_parent))
          q (h.flow alive)) in
      let back = answer-Explains s.processed j o in
      record {
        flow = λ alive.
            Flow-cong refusal given (some j) _ [] _ [] _ (answer o ∷ []) _
              (inr (inr (refl, refl, (answer o, refl, back.1)))) (sym was.0) (sym was.1) refl
              (sym (
                ends-append s.to_parent (answer o ∷ [])
                ∙ ap (λ xs. xs ++ ends (answer o ∷ [])) was.3
                ∙ back.0));
        settled = CallIsExplained-append refusal s.processed s.call _ h.settled;
        pending = h.pending;
        results =
            All-map (λ r. IsExplained refusal s.processed r.0 r.1)
              (λ r. IsExplained refusal given r.0 r.1) s.results
              (λ r x. IsExplained-append refusal s.processed _ r.0 r.1 x) h.results;
      }

  sent_in-IsSound :
      (c : Current) (s : Session V)
      → s.child.current ≡ c
      → IsSound refusal s
      → IsSound refusal (record s { child = sent_in c s.child })
  sent_in-IsSound nothing s q h = h
  sent_in-IsSound (processing j t) s q h = h
  sent_in-IsSound answering s q h = record {
    flow = λ alive.
        Flow-cong refusal s.processed _ _ _ _ _ _ _ _ (h.flow alive) refl refl (ap running q) refl;
    settled = h.settled;
    pending = h.pending;
    results = h.results;
  }

  call_in-IsSound :
      (c : Current) (id : String) (j : JobCall V) (s : Session V)
      → IsSound refusal s
      → IsSound refusal (sends (call_in c id j s.child) s)
  call_in-IsSound nothing id j s h = sends-IsSound s.child [] s refl refl h
  call_in-IsSound answering id j s h = sends-IsSound s.child [] s refl refl h
  call_in-IsSound (processing k t) id j s h = sends-IsSound _ _ s refl (ends-wrap_job id j) h

  live-IsSound :
      (e : Event V) (s : Session V)
      → IsUndisturbed e
      → s.exited ≡ false
      → IsSound refusal s
      → IsSound refusal (live refusal e s)
  unfolding processor_end settle sent call_job time_out
  live-IsSound (begins t a) s ok alive h = begin-IsSound refusal t a s h
  live-IsSound child_receives s ok alive h = child_receive-IsSound refusal s h
  live-IsSound (processor_ends o) s ok alive h =
      processor_end_in-IsSound s.child.current o s refl alive h
  live-IsSound (unsent v e) s ok alive h =
      processor_end_in-IsSound s.child.current (sending v (some e)) s refl alive h
  live-IsSound (crashes e) s ok alive h = absurd ok
  live-IsSound sent_back s ok alive h = sent_in-IsSound s.child.current s refl h
  live-IsSound (job_calls id c) s ok alive h = call_in-IsSound s.child.current id c s h
  live-IsSound (times_out id) s ok alive h = record {
    flow = h.flow;
    settled = h.settled;
    pending = h.pending;
    results = h.results;
  }
  live-IsSound parent_receives s ok alive h = parent_receive-IsSound refusal s alive h
  live-IsSound (answered n (returns v)) s ok alive h = answer_call-IsSound refusal n v s h
  live-IsSound (answered n (throws e)) s ok alive h = absurd ok
  live-IsSound (aborts r) s ok alive h = abort-IsSound refusal r s h
  live-IsSound (exits c g) s ok alive h = exit-IsSound refusal c g s h
  live-IsSound finishes s ok alive h = finish-IsSound refusal s h

  after_exit-IsSound :
      (e : Event V) (s : Session V)
      → IsUndisturbed e
      → IsSound refusal s
      → IsSound refusal (after_exit e s)
  after_exit-IsSound finishes s ok h = finish-IsSound refusal s h
  after_exit-IsSound (answered n (returns v)) s ok h = answer_call-IsSound refusal n v s h
  after_exit-IsSound (answered n (throws e)) s ok h = absurd ok
  after_exit-IsSound (begins t a) s ok h = h
  after_exit-IsSound child_receives s ok h = h
  after_exit-IsSound (processor_ends o) s ok h = h
  after_exit-IsSound (unsent v e) s ok h = h
  after_exit-IsSound (crashes e) s ok h = absurd ok
  after_exit-IsSound sent_back s ok h = h
  after_exit-IsSound (job_calls id c) s ok h = h
  after_exit-IsSound (times_out id) s ok h = h
  after_exit-IsSound parent_receives s ok h = h
  after_exit-IsSound (aborts r) s ok h = h
  after_exit-IsSound (exits c g) s ok h = h

  step-IsSound :
      (e : Event V) (s : Session V)
      → IsUndisturbed e
      → IsSound refusal s
      → IsSound refusal (step refusal e s)
  unfolding step
  step-IsSound e s ok h = elim (Bool-cases s.exited) [
    | inl over ↦
        subst (λ b. IsSound refusal (if b then after_exit e s else live refusal e s)) (sym over)
          (after_exit-IsSound e s ok h)
    | inr alive ↦
        subst (λ b. IsSound refusal (if b then after_exit e s else live refusal e s)) (sym alive)
          (live-IsSound e s ok alive h)
  ]

  run-IsSound :
      (es : List (Event V)) (s : Session V)
      → All IsUndisturbed es
      → IsSound refusal s
      → IsSound refusal (run refusal es s)
  unfolding run
  run-IsSound [] s ok h = h
  run-IsSound (e ∷ es) s ok h = run-IsSound es (step refusal e s) ok.1 (step-IsSound e s ok.0 h)

  -- However calls of `process` take the child one after the other, messages arrive late, jobs call
  -- their methods, values fail to be sent, signals are aborted and the process ends: as long as no
  -- call of a job's method fails and the child has no uncaught exception, each call settles with
  -- how the job of that very call has ended in the child (the value of the processor, with null for
  -- undefined, or the error of the processor or of sending its value), or fails since the child was
  -- not idle or has ended.
  pub run-IsExplained :
      (es : List (Event V))
      → All IsUndisturbed es
      → All
          (λ r. IsExplained refusal (run refusal es fresh).processed r.0 r.1)
          (run refusal es fresh).results
  run-IsExplained es ok = (run-IsSound es fresh ok (fresh-IsSound refusal)).results

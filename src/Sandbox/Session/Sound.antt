-- ===== src/Sandbox/Session/Sound.antt =====
-- What a call of `sandbox` (src/classes/sandbox.ts) settles with, as long as no call of a job's
-- method fails and the child has no uncaught exception: how its own job has ended, or an error of
-- the child.
use bullmq.Shared.{
  ℕ, ◌≡◌, refl, sym, ap, subst, ◌∙◌, inl, inr, if◌then◌else◌, Bool, true, false, List, [], ◌∷◌,
  ◌++◌, Option, none, some, String, All,
}
use bullmq.Sandbox.{
  ParentCommand, error, ChildCommand, Value, undefined, plain, ChildMessage, JobCall, Reaction,
  resolves, rejects, calls, ignores, react, wrap_job,
}
use bullmq.Sandbox.ChildProcessor.{
  ChildProcessor, Command, Current, nothing, processing, answering, or_null, receive, settle, sent,
  call_job, time_out,
}
use bullmq.Sandbox.Session.{
  Call, Pending, Session, begin, child_receive, fresh, cancels, open_call, deliver_to_child,
}
use bullmq.Sandbox.Session.Flow.{
  is_start, running, starts, ends, starts-append, ends-append, ends-append_none, IsExplained, Flow,
  Flow-start, Flow-cong, waiting_call, CallIsExplained,
}
use bullmq.Sandbox.Session.Messages.{Received, refused, receive-Received}

abbrev pub ReplyIsNoStart : Option (ChildCommand × Option String) → Type 0
ReplyIsNoStart none = Unit
ReplyIsNoStart (some (cmd, id)) = is_start cmd ≡ false

module _ {V : Type 0} (refusal : V) where
  abbrev pub IsReply : Pending V → Type 0
  IsReply p = ReplyIsNoStart p.reply

  -- What is on its way besides what is on its way back.
  abbrev pub FlowIn : Session V → Option ℕ → List (ChildMessage V) → Type 0
  FlowIn s w back = Flow refusal s.processed w (starts s.to_child) (running s.child.current) back

  pub record IsSound (s : Session V) : Type 0 where
    pub flow :
        s.exited ≡ false
        → Flow refusal s.processed
            (waiting_call s.call)
            (starts s.to_child)
            (running s.child.current)
            (ends s.to_parent)
    pub settled : CallIsExplained refusal s.processed s.call
    pub pending : All IsReply s.pending
    pub results : All (λ r. IsExplained refusal s.processed r.0 r.1) s.results

  pub fresh-IsSound : IsSound fresh
  unfolding fresh bullmq.Sandbox.ChildProcessor.new
  fresh-IsSound = record {
    flow = λ e. (refl, refl, refl);
    settled = tt;
    pending = tt;
    results = tt;
  }

  starts-cancels : (aborted : Option (Value V)) → starts (cancels aborted) ≡ []
  starts-cancels none = refl
  starts-cancels (some reason) = refl

  pub if-IsSound :
      (b : Bool) (s t : Session V) → IsSound s → IsSound t → IsSound (if b then s else t)
  if-IsSound true s t hs ht = hs
  if-IsSound false s t hs ht = ht

  -- A new call finds nothing on its way.
  open_call-IsSound :
      (token : Option String) (aborted : Option (Value V)) (c : Option (Call V)) (s : Session V)
      → s.call ≡ c
      → IsSound s
      → IsSound (open_call token aborted c s)
  open_call-IsSound token aborted (some c) s e h = h
  open_call-IsSound token aborted none s e h =
      if-IsSound s.free _ s
        (record {
          flow = λ alive.
              let f = subst (λ c. FlowIn s (waiting_call c) (ends s.to_parent)) e (h.flow alive) in
              inl (
                starts-append s.to_child _
                    ∙ ap (λ xs. xs ++ s.next ∷ starts (cancels aborted)) f.0
                    ∙ ap (λ xs. s.next ∷ xs) (starts-cancels aborted),
                f.1,
                f.2,
              );
          settled = tt;
          pending = h.pending;
          results = h.results;
        })
        h

  received :
      (m : Command V) (rest : List (Command V)) (s : Session V)
      (r : ChildProcessor V × List (ChildMessage V))
      → Flow refusal s.processed
          (waiting_call s.call)
          (starts (m ∷ rest))
          (running s.child.current)
          (ends s.to_parent)
      → Received refusal m.cmd m s.child.current r
      → Flow refusal s.processed
          (waiting_call s.call)
          (starts rest)
          (running r.0.current)
          (ends (s.to_parent ++ r.1))
  received m rest s r f (inl (other, same, silent)) =
      Flow-cong refusal s.processed _ _ _ _ _ _ _ _ f refl (rw other) (ap running (sym same))
        (sym (ends-append_none s.to_parent r.1 (ap ends silent)))
  received m rest s r f (inr (inl (begun, now, silent))) =
      let at = Flow-start refusal s.processed _ _ _ _ _ (
        subst
          (λ xs.
            Flow refusal s.processed (waiting_call s.call) xs (running s.child.current)
              (ends s.to_parent))
          (rw begun) f) in
      Flow-cong refusal s.processed (some m.job) _ [] _ (m.job ∷ []) _ [] _
        (inr (inl (refl, refl, refl))) (sym at.0) (sym at.1) (ap running (sym now))
        (sym (ends-append_none s.to_parent r.1 (ap ends silent) ∙ at.3))
  received m rest s r f (inr (inr (begun, same, refuses))) =
      let at = Flow-start refusal s.processed _ _ _ _ _ (
        subst
          (λ xs.
            Flow refusal s.processed (waiting_call s.call) xs (running s.child.current)
              (ends s.to_parent))
          (rw begun) f) in
      Flow-cong refusal s.processed (some m.job) _ [] _ [] _ (refused refusal ∷ []) _
        (inr (inr (refl, refl, (refused refusal, refl, unfold react in inr refl)))) (sym at.0)
        (sym at.1) (sym (ap running same ∙ at.2))
        (sym (ends-append s.to_parent r.1 ∙ ap (λ xs. xs ++ ends r.1) at.3 ∙ ap ends refuses))

  deliver_to_child-IsSound :
      (cs : List (Command V)) (s : Session V)
      → s.to_child ≡ cs
      → IsSound s
      → IsSound (deliver_to_child refusal cs s)
  deliver_to_child-IsSound [] s e h = h
  deliver_to_child-IsSound (m ∷ rest) s e h = record {
    flow = λ alive.
        received m rest s (receive refusal m s.child)
          (subst
            (λ cs.
              Flow refusal s.processed (waiting_call s.call) (starts cs) (running s.child.current)
                (ends s.to_parent))
            e (h.flow alive))
          (receive-Received refusal m s.child);
    settled = h.settled;
    pending = h.pending;
    results = h.results;
  }

  pub begin-IsSound :
      (token : Option String) (aborted : Option (Value V)) (s : Session V)
      → IsSound s
      → IsSound (begin token aborted s)
  unfolding begin
  begin-IsSound token aborted s h = open_call-IsSound token aborted s.call s refl h

  pub child_receive-IsSound : (s : Session V) → IsSound s → IsSound (child_receive refusal s)
  unfolding child_receive
  child_receive-IsSound s h = deliver_to_child-IsSound s.to_child s refl h

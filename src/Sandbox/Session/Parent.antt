-- ===== src/Sandbox/Session/Parent.antt =====
-- The steps of the parent keep what holds of a session.
use bullmq.Shared.{
  ℕ, zero, suc, ◌≡◌, refl, sym, ap, subst, ◌∙◌, inl, inr, if◌then◌else◌, Option-cases, Bool, false,
  List, [], ◌∷◌, Option, none, some, String, All, All-append, Outcome, returns, throws, arith,
}
use bullmq.Sandbox.{ChildCommand, Value, ChildMessage, Reaction, react}
use bullmq.Sandbox.Session.{
  Failure, remote, unexpected_exit, Call, Pending, Session, parent_receive, answer_call, abort,
  exit, finish, settled_first, settle_call, take_at, responses_of, reacts, handle, deliver,
  close_in, finish_in, resume, abort_in,
}
use bullmq.Sandbox.Session.Flow.{
  running, starts, ends, starts-append_none, IsExplained, Explains, Flow, Flow-end, Flow-cong,
  unsettled, waiting_call, SettledWell, CallIsExplained,
}
use bullmq.Sandbox.Session.Messages.{
  Reacts, resolving, rejecting, ignoring, plainly, replying, react-Reacts,
}
use bullmq.Sandbox.Session.Sound.{ReplyIsNoStart, IsReply, if-IsSound, FlowIn, IsSound}

module _ {V : Type 0} (refusal : V) where
  -- A first outcome that is explained settles the call that waits.
  settle_call-IsSound :
      (k : Call V) (o : Outcome (Failure V) (Value V)) (s : Session V) (n : ℕ)
      → waiting_call (some k) ≡ some n
      → IsExplained refusal s.processed n o
      → (waiting_call (settle_call o (some k)) ≡ none)
        × CallIsExplained refusal s.processed (settle_call o (some k))
  settle_call-IsSound k o s n w x = elim (Option-cases k.settled) [
    | inl e ↦
        let waits : unsettled {V = V} k.number none ≡ some n =
          subst (λ p. unsettled {V = V} k.number p ≡ some n) e w in
        let same : n ≡ k.number = cc in
        (rw e, rw e (subst (λ i. IsExplained refusal s.processed i o) same x))
    | inr (p, e) ↦
        let waits : unsettled {V = V} k.number (some p) ≡ some n =
          subst (λ q. unsettled {V = V} k.number q ≡ some n) e w in
        absurd (cc)
  ]

  -- The reaction to a message that has just been taken from the way back.
  reacts-IsSound :
      {b : Bool} {r : Reaction V}
      → Reacts b r
      → (k : Call V) (m : ChildMessage V) (s : Session V) → s.call ≡ some k
      → react m ≡ r
      → CallIsExplained refusal s.processed (some k)
      → All (IsReply refusal) s.pending
      → All (λ r. IsExplained refusal s.processed r.0 r.1) s.results
      → FlowIn refusal s
          (waiting_call (some k))
          (if b then m ∷ ends s.to_parent else ends s.to_parent)
      → IsSound refusal (reacts k r s)
  reacts-IsSound (resolving v) k m s c e settled pending results f =
      let (n, w, a, r, bk, x) = Flow-end refusal s.processed _ m _ _ _ f in
      let done =
        settle_call-IsSound k (returns v) s n w (subst (Explains refusal s.processed n) e x) in
      record {
        flow = λ alive. subst (λ w. FlowIn refusal s w (ends s.to_parent)) (sym done.0) (a, r, bk);
        settled = done.1;
        pending = pending;
        results = results;
      }
  reacts-IsSound (rejecting v) k m s c e settled pending results f =
      let (n, w, a, r, bk, x) = Flow-end refusal s.processed _ m _ _ _ f in
      let done =
        settle_call-IsSound k (throws (remote v)) s n w
          (subst (Explains refusal s.processed n) e x) in
      record {
        flow = λ alive. subst (λ w. FlowIn refusal s w (ends s.to_parent)) (sym done.0) (a, r, bk);
        settled = done.1;
        pending = pending;
        results = results;
      }
  reacts-IsSound ignoring k m s c e settled pending results f = record {
    flow = λ alive. subst (λ k. FlowIn refusal s (waiting_call k) (ends s.to_parent)) (sym c) f;
    settled = subst (CallIsExplained refusal s.processed) (sym c) settled;
    pending = pending;
    results = results;
  }
  reacts-IsSound (plainly j) k m s c e settled pending results f = record {
    flow = λ alive. subst (λ k. FlowIn refusal s (waiting_call k) (ends s.to_parent)) (sym c) f;
    settled = subst (CallIsExplained refusal s.processed) (sym c) settled;
    pending = All-append (IsReply refusal) s.pending _ pending (tt, tt);
    results = results;
  }
  reacts-IsSound (replying j cmd id other) k m s c e settled pending results f = record {
    flow = λ alive. subst (λ k. FlowIn refusal s (waiting_call k) (ends s.to_parent)) (sym c) f;
    settled = subst (CallIsExplained refusal s.processed) (sym c) settled;
    pending = All-append (IsReply refusal) s.pending _ pending (other, tt);
    results = results;
  }

  ends-cons_none :
      (m : ChildMessage V) (rest : List (ChildMessage V)) → ends (m ∷ rest) ≡ [] → ends rest ≡ []
  ends-cons_none m rest h = ground arith

  handle-IsSound :
      (c : Option (Call V)) (m : ChildMessage V) (rest : List (ChildMessage V)) (s : Session V)
      → s.call ≡ c
      → s.to_parent ≡ m ∷ rest
      → s.exited ≡ false
      → IsSound refusal s
      → IsSound refusal (handle c m (record s { to_parent = rest }))
  handle-IsSound none m rest s q e alive h =
      let f = subst (λ k. FlowIn refusal s (waiting_call k) (ends s.to_parent)) q (h.flow alive) in
      let none_left : ends (m ∷ rest) ≡ [] = ap ends (sym e) ∙ f.2 in
      record {
        flow = λ alive.
            subst (λ k. FlowIn refusal s (waiting_call k) (ends rest)) (sym q)
              (f.0, f.1, ends-cons_none m rest none_left);
        settled = h.settled;
        pending = h.pending;
        results = h.results;
      }
  handle-IsSound (some k) m rest s q e alive h =
      reacts-IsSound (react-Reacts m) k m (record s { to_parent = rest }) q refl
        (subst (CallIsExplained refusal s.processed) q h.settled) h.pending h.results
        (subst (λ ms. FlowIn refusal s (waiting_call (some k)) (ends ms)) e
          (subst (λ k. FlowIn refusal s (waiting_call k) (ends s.to_parent)) q (h.flow alive)))

  deliver-IsSound :
      (ms : List (ChildMessage V)) (s : Session V)
      → s.to_parent ≡ ms
      → s.exited ≡ false
      → IsSound refusal s
      → IsSound refusal (deliver ms s)
  deliver-IsSound [] s e alive h = h
  deliver-IsSound (m ∷ rest) s e alive h = handle-IsSound s.call m rest s refl e alive h

  pub parent_receive-IsSound :
      (s : Session V) → s.exited ≡ false → IsSound refusal s → IsSound refusal (parent_receive s)
  unfolding parent_receive
  parent_receive-IsSound s alive h = deliver-IsSound s.to_parent s refl alive h

  responses-none :
      (r : Option (ChildCommand × Option String)) (v : Value V)
      → ReplyIsNoStart r
      → starts (responses_of r v) ≡ []
  responses-none none v h = refl
  responses-none (some (cmd, id)) v h = rw h

  -- A response is no order to start a job.
  resume-IsSound :
      (p : Pending V) (v : Value V) (s : Session V)
      → IsReply refusal p
      → IsSound refusal s
      → IsSound refusal (resume p (returns v) s)
  resume-IsSound p v s r h = record {
    flow = λ alive.
        subst
          (λ xs.
            Flow refusal s.processed (waiting_call s.call) xs (running s.child.current)
              (ends s.to_parent))
          (sym (starts-append_none s.to_child _ (responses-none p.reply v r))) (h.flow alive);
    settled = h.settled;
    pending = h.pending;
    results = h.results;
  }

  take_at-All :
      (n : ℕ) (ps : List (Pending V))
      → All (IsReply refusal) ps
      → (p : Pending V) (qs : List (Pending V)) → take_at n ps ≡ some (p, qs)
      → IsReply refusal p × All (IsReply refusal) qs
  take_at-All n [] h p qs e = absurd (cc)
  take_at-All zero (x ∷ ps) h p qs e =
      let first : x ≡ p = cc in
      let others : ps ≡ qs = cc in
      (subst (IsReply refusal) first h.0, subst (All (IsReply refusal)) others h.1)
  take_at-All (suc n) (x ∷ ps) h p qs e = elim (Option-cases (take_at n ps)) [
    | inl k ↦ absurd (ground arith)
    | inr ((q, rs), k) ↦
        let found : ◌≡◌ {A = Option (Pending V × List (Pending V))} (some (q, x ∷ rs))
            (some (p, qs)) =
          rw k at e in
        let kept = take_at-All n ps h.1 q rs k in
        let first : q ≡ p = cc in
        let others : x ∷ rs ≡ qs = cc in
        (subst (IsReply refusal) first kept.0, subst (All (IsReply refusal)) others (h.0, kept.1))
  ]

  pub answer_call-IsSound :
      (n : ℕ) (v : Value V) (s : Session V)
      → IsSound refusal s
      → IsSound refusal (answer_call n (returns v) s)
  unfolding answer_call
  answer_call-IsSound n v s h = elim (Option-cases (take_at n s.pending)) [
    | inl e ↦ rw (e, answer_call) h
    | inr ((p, qs), e) ↦
        let kept = take_at-All n s.pending h.pending p qs e in
        rw (e, answer_call)
          (resume-IsSound p v (record s { pending = qs }) kept.0
            (record { flow = h.flow; settled = h.settled; pending = kept.1; results = h.results }))
  ]

  abort_in-IsSound :
      (reason : Value V) (c : Option (Call V)) (s : Session V)
      → s.call ≡ c
      → IsSound refusal s
      → IsSound refusal (abort_in reason c s)
  abort_in-IsSound reason none s q h = h
  abort_in-IsSound reason (some k) s q h =
      if-IsSound refusal k.can_abort _ s
        (record {
          flow = λ alive.
              Flow-cong refusal s.processed _ _ _ _ _ _ _ _ (h.flow alive) (ap waiting_call q)
                (sym (starts-append_none s.to_child _ refl)) refl refl;
          settled = subst (CallIsExplained refusal s.processed) q h.settled;
          pending = h.pending;
          results = h.results;
        })
        h

  pub abort-IsSound :
      (reason : Value V) (s : Session V) → IsSound refusal s → IsSound refusal (abort reason s)
  unfolding abort
  abort-IsSound reason s h = abort_in-IsSound reason s.call s refl h

  exit-settled :
      (code : Option ℕ) (signal : Option String) (c : Option (Call V))
      (given : List (ℕ × Outcome V (Value V)))
      → CallIsExplained refusal given c
      → CallIsExplained refusal given (settle_call (throws (unexpected_exit code signal)) c)
  exit-settled code signal none given h = tt
  exit-settled code signal (some k) given h = go k.settled h
    where
      go :
          (o : Option (Outcome (Failure V) (Value V)))
          → SettledWell refusal given k.number o
          → SettledWell refusal given k.number
              (settled_first o (throws (unexpected_exit code signal)))
      go none h = inr tt
      go (some o) h = h

  pub exit-IsSound :
      (code : Option ℕ) (signal : Option String) (s : Session V)
      → IsSound refusal s
      → IsSound refusal (exit code signal s)
  unfolding exit
  exit-IsSound code signal s h = record {
    flow = λ alive. absurd (cc);
    settled = exit-settled code signal s.call s.processed h.settled;
    pending = h.pending;
    results = h.results;
  }

  close_in-IsSound :
      (k : Call V) (o : Option (Outcome (Failure V) (Value V))) (s : Session V)
      → s.call ≡ some k
      → k.settled ≡ o
      → IsSound refusal s
      → IsSound refusal (close_in k o s)
  close_in-IsSound k none s q e h = h
  close_in-IsSound k (some o) s q e h = record {
    flow = λ alive.
        subst (λ w. FlowIn refusal s w (ends s.to_parent))
          (ap waiting_call q ∙ ap (unsettled {V = V} k.number) e) (h.flow alive);
    settled = tt;
    pending = h.pending;
    results =
        All-append (λ r. IsExplained refusal s.processed r.0 r.1) s.results _ h.results
          (
            subst (SettledWell refusal s.processed k.number) e
                (subst (CallIsExplained refusal s.processed) q h.settled),
            tt,
          );
  }

  finish_in-IsSound :
      (c : Option (Call V)) (s : Session V)
      → s.call ≡ c
      → IsSound refusal s
      → IsSound refusal (finish_in c s)
  finish_in-IsSound none s q h = h
  finish_in-IsSound (some k) s q h = close_in-IsSound k k.settled s q refl h

  pub finish-IsSound : (s : Session V) → IsSound refusal s → IsSound refusal (finish s)
  unfolding finish
  finish-IsSound s h = finish_in-IsSound s.call s refl h

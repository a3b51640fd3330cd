-- ===== src/Sandbox/Session/Runs.antt =====
-- Runs of `sandbox` of src/classes/sandbox.ts: jobs in turn, and a job whose method's call fails.
use bullmq.Shared.{
  ℕ, suc, ◌≡◌, refl, sym, ap, ◌∙◌, true, false, List, [], ◌∷◌, ◌++◌, append_assoc, append-nil, map,
  none, some, Outcome, returns, throws,
}
use bullmq.Sandbox.{Value, undefined, react, update_progress}
use bullmq.Sandbox.ChildProcessor.{idle, nothing, or_null, new}
use bullmq.Sandbox.Session.{
  Failure, call_failed, Session, Event, begins, child_receives, sent_back, parent_receives,
  finishes, processor_ends, job_calls, answered, run, fresh,
}
use bullmq.Sandbox.Session.Flow.{outcome_of}

-- The entries of a list with their numbers, from n on.
abbrev pub numbered {ℓ} : {A : Type ℓ} → ℕ → List A → List (ℕ × A)
numbered n [] = []
numbered n (x ∷ xs) = (n, x) ∷ numbered (suc n) xs

module _ {V : Type 0} (refusal : V) where
  -- The child is in the pool and idle, no message is on its way, and the next call has number n.
  abbrev at_rest :
      ℕ → List (ℕ × Outcome V (Value V)) → List (ℕ × Outcome (Failure V) (Value V)) → Session V
  at_rest n processed results = record {
    child = record {
      status = some idle;
      current = nothing;
      abort_controller = none;
      waiting = [];
      responses = [];
    };
    to_child = [];
    to_parent = [];
    free = true;
    exited = false;
    can_release = true;
    call = none;
    next = n;
    pending = [];
    job_calls = [];
    processed = processed;
    results = results;
  }

  -- Calls whose processors end by the given outcomes, each after the one before.
  abbrev pub turns : List (Outcome V (Value V)) → List (Event V)
  turns [] = []
  turns (o ∷ os) =
      begins none none
      ∷ child_receives
      ∷ processor_ends o
      ∷ sent_back
      ∷ parent_receives
      ∷ finishes
      ∷ turns os

  turn-at_rest :
      (o : Outcome V (Value V)) (os : List (Outcome V (Value V))) (n : ℕ)
      (processed : List (ℕ × Outcome V (Value V)))
      (results : List (ℕ × Outcome (Failure V) (Value V)))
      → run refusal (turns (o ∷ os)) (at_rest n processed results)
        ≡ run refusal
            (turns os)
            (at_rest (suc n) (processed ++ (n, o) ∷ []) (results ++ (n, outcome_of o) ∷ []))
  unfolding run react
  turn-at_rest (returns v) os n processed results = refl
  turn-at_rest (throws e) os n processed results = refl

  turns-at_rest :
      (os : List (Outcome V (Value V))) (n : ℕ) (processed : List (ℕ × Outcome V (Value V)))
      (results : List (ℕ × Outcome (Failure V) (Value V)))
      → ((run refusal (turns os) (at_rest n processed results)).processed
          ≡ processed ++ numbered n os)
        × ((run refusal (turns os) (at_rest n processed results)).results
            ≡ results ++ numbered n (map outcome_of os))
  turns-at_rest [] n processed results =
      unfold run in (sym (append-nil processed), sym (append-nil results))
  turns-at_rest (o ∷ os) n processed results =
      let later =
        turns-at_rest os (suc n) (processed ++ (n, o) ∷ []) (results ++ (n, outcome_of o) ∷ []) in
      (
        ap (λ s. s.processed) (turn-at_rest o os n processed results)
            ∙ later.0
            ∙ append_assoc processed _ _,
        ap (λ s. s.results) (turn-at_rest o os n processed results)
            ∙ later.1
            ∙ append_assoc results _ _,
      )

  -- Calls that take an idle child in turn settle, each with what the processor has given for its
  -- job.
  pub turns-results :
      (os : List (Outcome V (Value V)))
      → ((run refusal (turns os) fresh).processed ≡ numbered 0 os)
        × ((run refusal (turns os) fresh).results ≡ numbered 0 (map outcome_of os))
  unfolding fresh new
  turns-results os = turns-at_rest os 0 [] []

  -- The call of a method fails in the parent, which returns the child to the pool while its
  -- processor runs, and the next call takes it.
  abbrev overtaking : V → Value V → List (Event V)
  overtaking e v =
      begins none none
      ∷ child_receives
      ∷ job_calls "id" (update_progress undefined)
      ∷ parent_receives
      ∷ answered 0 (throws e)
      ∷ finishes
      ∷ begins none none
      ∷ processor_ends (returns v)
      ∷ parent_receives
      ∷ finishes
      ∷ []

  -- For every error of the call of a method, and every value, there is a run with two calls in
  -- which the first fails with that error, and the second settles with that value, which the
  -- processor has given for the job of the first; it has given nothing for that of the second.
  pub stale_result :
      (e : V) (v : Value V)
      → (es : List (Event V)) × ((run refusal es fresh).processed ≡ (0, returns v) ∷ [])
        × ((run refusal es fresh).results
            ≡ (0, throws (call_failed e)) ∷ (1, returns (or_null v)) ∷ [])
  unfolding run fresh react
  stale_result e v = (overtaking e v, refl, refl)

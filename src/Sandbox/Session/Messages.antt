-- ===== src/Sandbox/Session/Messages.antt =====
-- What the messages of src/classes/sandbox.ts and src/classes/child-processor.ts do.
use bullmq.Shared.{
  ◌≡◌, refl, subst, ◌⊎◌, inl, inr, Bool-cases, Bool, true, false, List, [], ◌∷◌, Option, none, some,
  String, arith,
}
use bullmq.Sandbox.{
  ParentCommand, completed, failed, error, progress, log, move_to_delayed, move_to_wait, update,
  get_children_values, get_ignored_children_failures, get_dependencies_count,
  move_to_waiting_children, get_dependencies, init_failed, init_completed, ChildCommand, init,
  start, stop, cancel, get_children_values_response, get_ignored_children_failures_response,
  get_dependencies_count_response, move_to_waiting_children_response, get_dependencies_response,
  Value, undefined, plain, ChildMessage, JobCall, Reaction, resolves, rejects, calls, ignores,
  react, wrap_job, waits, react_to, or_else, timestamp_of, token_of, update_progress, log_row,
  update_data, to_delayed, to_wait, to_waiting_children, children_values, ignored_children_failures,
  count_dependencies, list_dependencies,
}
use bullmq.Sandbox.ChildProcessor.{
  ChildProcessor, Command, Current, processing, is_idle, start_job, cancel_job, switch, receive,
  resolve_waiting,
}
use bullmq.Sandbox.Session.Flow.{is_start, is_end, ends}

module _ {V : Type 0} where
  -- What a message makes the parent do, and whether it settles the call.
  pub data Reacts : Bool → Reaction V → Type 0 where
    resolving : (v : Value V) → Reacts true (resolves v)
    rejecting : (e : Value V) → Reacts true (rejects e)
    ignoring : Reacts false ignores
    plainly : (c : JobCall V) → Reacts false (calls c none)
    replying :
        (c : JobCall V) (cmd : ChildCommand) (id : Option String)
        → is_start cmd ≡ false
        → Reacts false (calls c (some (cmd, id)))

  react_to-Reacts : (c : ParentCommand) (m : ChildMessage V) → Reacts (is_end c) (react_to c m)
  react_to-Reacts completed m = resolving m.value
  react_to-Reacts failed m = rejecting (or_else m.value m.err)
  react_to-Reacts error m = rejecting (or_else m.value m.err)
  react_to-Reacts progress m = plainly (update_progress m.value)
  react_to-Reacts log m = plainly (log_row m.value)
  react_to-Reacts move_to_delayed m = plainly (to_delayed (timestamp_of m.value) (token_of m.value))
  react_to-Reacts move_to_wait m = plainly (to_wait (token_of m.value))
  react_to-Reacts update m = plainly (update_data m.value)
  react_to-Reacts move_to_waiting_children m = replying _ _ m.request_id refl
  react_to-Reacts get_children_values m = replying _ _ m.request_id refl
  react_to-Reacts get_ignored_children_failures m = replying _ _ m.request_id refl
  react_to-Reacts get_dependencies_count m = replying _ _ m.request_id refl
  react_to-Reacts get_dependencies m = replying _ _ m.request_id refl
  react_to-Reacts init_failed m = ignoring
  react_to-Reacts init_completed m = ignoring

  pub react-Reacts : (m : ChildMessage V) → Reacts (is_end m.cmd) (react m)
  unfolding react
  react-Reacts m = react_to-Reacts m.cmd m

  -- What a command does to the job of the child.
  abbrev pub refused : V → ChildMessage V
  refused refusal = record {
    cmd = error;
    request_id = none;
    value = undefined;
    err = plain refusal;
  }

  abbrev pub Received :
      V → ChildCommand → Command V → Current → ChildProcessor V × List (ChildMessage V) → Type 0
  Received refusal c m now r =
      ((is_start c ≡ false) × (r.0.current ≡ now) × (r.1 ≡ []))
      ⊎ (((is_start c ≡ true) × (r.0.current ≡ processing m.job m.token) × (r.1 ≡ []))
          ⊎ ((is_start c ≡ true) × (r.0.current ≡ now) × (r.1 ≡ refused refusal ∷ [])))

  resolve_waiting-current :
      (id : Option String) (v : Value V) (p : ChildProcessor V)
      → (resolve_waiting id v p).current ≡ p.current
  unfolding resolve_waiting
  resolve_waiting-current none v p = refl
  resolve_waiting-current (some id) v p = ground arith

  switch-Received :
      (refusal : V) (c : ChildCommand) (m : Command V) (p : ChildProcessor V)
      → Received refusal c m p.current (switch refusal c m p)
  unfolding start_job cancel_job
  switch-Received refusal start m p = elim (Bool-cases (is_idle p.status)) [
    | inl ready ↦ inr (inl (refl, rw ready, rw ready))
    | inr busy ↦ inr (inr (refl, rw busy, rw busy))
  ]
  switch-Received refusal cancel m p = inl (refl, refl, refl)
  switch-Received refusal init m p = inl (refl, refl, refl)
  switch-Received refusal stop m p = inl (refl, refl, refl)
  switch-Received refusal get_children_values_response m p = inl (refl, refl, refl)
  switch-Received refusal get_ignored_children_failures_response m p = inl (refl, refl, refl)
  switch-Received refusal get_dependencies_count_response m p = inl (refl, refl, refl)
  switch-Received refusal move_to_waiting_children_response m p = inl (refl, refl, refl)
  switch-Received refusal get_dependencies_response m p = inl (refl, refl, refl)

  pub receive-Received :
      (refusal : V) (m : Command V) (p : ChildProcessor V)
      → Received refusal m.cmd m p.current (receive refusal m p)
  unfolding receive
  receive-Received refusal m p =
      subst (λ now. Received refusal m.cmd m now (receive refusal m p))
        (resolve_waiting-current m.request_id m.value p)
        (switch-Received refusal m.cmd m (resolve_waiting m.request_id m.value p))

  pub ends-wrap_job : (id : String) (c : JobCall V) → ends (wrap_job id c ∷ []) ≡ []
  unfolding wrap_job
  ends-wrap_job id (update_progress v) = refl
  ends-wrap_job id (log_row v) = refl
  ends-wrap_job id (update_data v) = refl
  ends-wrap_job id (to_delayed t k) = refl
  ends-wrap_job id (to_wait k) = refl
  ends-wrap_job id (to_waiting_children k o) = refl
  ends-wrap_job id children_values = refl
  ends-wrap_job id ignored_children_failures = refl
  ends-wrap_job id (count_dependencies v) = refl
  ends-wrap_job id (list_dependencies v) = refl

  -- Each method that the job of the child has makes the parent call the same method with the same
  -- arguments; where the child waits for a response, one with the id of its request is sent, and
  -- none else.
  pub react-wrap_job :
      (id : String) (c : JobCall V)
      → (reply : Option (ChildCommand × Option String)) × (react (wrap_job id c) ≡ calls c reply)
        × (waits c ≡ true → (cmd : ChildCommand) × (reply ≡ some (cmd, some id)))
        × (waits c ≡ false → reply ≡ none)
  unfolding react wrap_job waits
  react-wrap_job id (update_progress v) = (none, refl, λ h. absurd (cc), λ h. refl)
  react-wrap_job id (log_row v) = (none, refl, λ h. absurd (cc), λ h. refl)
  react-wrap_job id (update_data v) = (none, refl, λ h. absurd (cc), λ h. refl)
  react-wrap_job id (to_delayed t k) = (none, refl, λ h. absurd (cc), λ h. refl)
  react-wrap_job id (to_wait k) = (none, refl, λ h. absurd (cc), λ h. refl)
  react-wrap_job id (to_waiting_children k o) = (_, refl, λ h. (_, refl), λ h. absurd (cc))
  react-wrap_job id children_values = (_, refl, λ h. (_, refl), λ h. absurd (cc))
  react-wrap_job id ignored_children_failures = (_, refl, λ h. (_, refl), λ h. absurd (cc))
  react-wrap_job id (count_dependencies v) = (_, refl, λ h. (_, refl), λ h. absurd (cc))
  react-wrap_job id (list_dependencies v) = (_, refl, λ h. (_, refl), λ h. absurd (cc))

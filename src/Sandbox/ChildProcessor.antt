-- ===== src/Sandbox/ChildProcessor.antt =====
-- The class `ChildProcessor` of src/classes/child-processor.ts, and the switch of
-- src/classes/main-base.ts. A job is known by a number.
use bullmq.Shared.{
  ℕ, ◌===◌, if◌then◌else◌, not, Bool, true, false, List, [], ◌∷◌, ◌++◌, Option, none, some, String,
  keep, any, Outcome, returns, throws,
}
use bullmq.Sandbox.{
  ChildCommand, init, start, stop, cancel, get_children_values_response,
  get_ignored_children_failures_response, get_dependencies_count_response,
  move_to_waiting_children_response, get_dependencies_response, Value, undefined, null, plain,
  fields, ChildMessage, JobCall, completed, failed, error, init_failed, init_completed, message,
  wrap_job, waits,
}

pub data ChildStatus : Type 0 where
  idle started terminating errored : ChildStatus

-- `currentJobPromise`: whether the processor runs, for which job and with which token, or its
-- answer is being sent.
pub data Current : Type 0 where
  nothing : Current
  processing : ℕ → Option String → Current
  answering : Current

-- What comes from the parent.
pub record Command (V : Type 0) : Type 0 where
  pub cmd : ChildCommand
  pub request_id : Option String
  pub value : Value V
  pub job : ℕ
  pub token : Option String

-- The signal of the abort controller is aborted if it has a reason. Each id in `waiting` has a
-- listener of `waitResponse`, and `responses` is what these have resolved to.
pub record ChildProcessor (V : Type 0) : Type 0 where
  pub status : Option ChildStatus
  pub current : Current
  pub abort_controller : Option (Option (Value V))
  pub waiting : List String
  pub responses : List (String × Value V)

abbrev pub is_idle : Option ChildStatus → Bool
is_idle (some idle) = true
is_idle (some started) = false
is_idle (some terminating) = false
is_idle (some errored) = false
is_idle none = false

module _ {V : Type 0} where
  unfoldable pub new : ChildProcessor V
  new = record {
    status = none;
    current = nothing;
    abort_controller = none;
    waiting = [];
    responses = [];
  }

  -- `init` with what the import of the file gave: whether it has a processor, or the error. The
  -- last component says whether the process exits.
  unfoldable pub init_child :
      Outcome V (Unit {0}) → ChildProcessor V → ChildProcessor V × List (ChildMessage V) × Bool
  init_child (returns u) p =
      (record p { status = some idle }, message init_completed none undefined ∷ [], false)
  init_child (throws e) p = (
    record p { status = some errored },
    record { cmd = init_failed; request_id = none; value = undefined; err = plain e } ∷ [],
    true,
  )

  -- `start`, where `refusal` is the error of a child that is not idle.
  unfoldable pub start_job :
      V → ℕ → Option String → ChildProcessor V → ChildProcessor V × List (ChildMessage V)
  start_job refusal job token p =
      if is_idle p.status
      then (
        record p {
          status = some started;
          current = processing job token;
          abort_controller = some none;
        },
        [],
      )
      else (
        p,
        record { cmd = error; request_id = none; value = undefined; err = plain refusal } ∷ [],
      )

  -- A result `undefined` is sent as null.
  abbrev pub or_null : Value V → Value V
  or_null undefined = null
  or_null null = null
  or_null (plain v) = plain v
  or_null (fields t k o) = fields t k o

  -- How the `try` block of `start` ends for a value, which is sent or fails to be with an error.
  abbrev pub sending : Value V → Option V → Outcome V (Value V)
  sending v none = returns v
  sending v (some e) = throws e

  abbrev pub answer : Outcome V (Value V) → ChildMessage V
  answer (returns v) = message completed none (or_null v)
  answer (throws e) = message failed none (plain e)

  -- The `try` block of `start` ends; an error leads to the other answer.
  abbrev pub settle_in :
      Current → Outcome V (Value V) → ChildProcessor V → ChildProcessor V × List (ChildMessage V)
  settle_in nothing o p = (p, [])
  settle_in answering o p = (p, [])
  settle_in (processing j t) o p = (record p { current = answering }, answer o ∷ [])

  unfoldable pub settle :
      Outcome V (Value V) → ChildProcessor V → ChildProcessor V × List (ChildMessage V)
  settle o p = settle_in p.current o p

  -- The answer has been sent: the `finally` of `start`.
  abbrev pub sent_in : Current → ChildProcessor V → ChildProcessor V
  sent_in nothing p = p
  sent_in (processing j t) p = p
  sent_in answering p = record p { status = some idle; current = nothing; abort_controller = none }

  unfoldable pub sent : ChildProcessor V → ChildProcessor V
  sent p = sent_in p.current p

  -- A second `abort` changes nothing.
  abbrev abort : Value V → Option (Option (Value V)) → Option (Option (Value V))
  abort reason none = none
  abort reason (some none) = some (some reason)
  abort reason (some (some r)) = some (some r)

  unfoldable pub cancel_job : Value V → ChildProcessor V → ChildProcessor V
  cancel_job reason p = record p { abort_controller = abort reason p.abort_controller }

  -- A method of the wrapped job that the running processor calls.
  abbrev pub call_in :
      Current → String → JobCall V → ChildProcessor V → ChildProcessor V × List (ChildMessage V)
  call_in nothing id c p = (p, [])
  call_in answering id c p = (p, [])
  call_in (processing j t) id c p = (
    record p { waiting = if waits c then p.waiting ++ id ∷ [] else p.waiting },
    wrap_job id c ∷ [],
  )

  unfoldable pub call_job :
      String → JobCall V → ChildProcessor V → ChildProcessor V × List (ChildMessage V)
  unfolding wrap_job waits
  call_job id c p = call_in p.current id c p

  -- The timeout of `waitResponse`.
  unfoldable pub time_out : String → ChildProcessor V → ChildProcessor V
  time_out id p = record p { waiting = keep (λ i. not (i === id)) p.waiting }

  -- The listeners of `waitResponse`, which look at the id of the request only.
  unfoldable pub resolve_waiting : Option String → Value V → ChildProcessor V → ChildProcessor V
  resolve_waiting none v p = p
  resolve_waiting (some id) v p =
      if any (λ i. i === id) p.waiting
      then record p {
        waiting = keep (λ i. not (i === id)) p.waiting;
        responses = p.responses ++ (id, v) ∷ [];
      }
      else p

  -- The switch on the command. A child is initialized once, before.
  abbrev pub switch :
      V → ChildCommand → Command V → ChildProcessor V → ChildProcessor V × List (ChildMessage V)
  switch refusal start m p = start_job refusal m.job m.token p
  switch refusal cancel m p = (cancel_job m.value p, [])
  switch refusal init m p = (p, [])
  switch refusal stop m p = (p, [])
  switch refusal get_children_values_response m p = (p, [])
  switch refusal get_ignored_children_failures_response m p = (p, [])
  switch refusal get_dependencies_count_response m p = (p, [])
  switch refusal move_to_waiting_children_response m p = (p, [])
  switch refusal get_dependencies_response m p = (p, [])

  unfoldable pub receive :
      V → Command V → ChildProcessor V → ChildProcessor V × List (ChildMessage V)
  unfolding start_job cancel_job resolve_waiting
  receive refusal m p = switch refusal m.cmd m (resolve_waiting m.request_id m.value p)

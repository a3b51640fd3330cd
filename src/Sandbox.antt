-- ===== src/Sandbox.antt =====
-- Jobs that are processed in a child: the messages between src/classes/sandbox.ts and
-- src/classes/child-processor.ts, what the parent does on each message, and what the job of the
-- child sends. Values are JSON.
pub mod ChildProcessor
pub mod Child
pub mod Session
use bullmq.Shared.{ℕ, Bool, true, false, Option, none, some, String}

-- `ParentCommand` and `ChildCommand`.
pub data ParentCommand : Type 0 where
  completed error failed init_failed init_completed log move_to_delayed move_to_wait : ParentCommand
  progress update get_children_values get_ignored_children_failures : ParentCommand
  get_dependencies_count move_to_waiting_children get_dependencies : ParentCommand

pub data ChildCommand : Type 0 where
  init start stop get_children_values_response get_ignored_children_failures_response : ChildCommand
  get_dependencies_count_response move_to_waiting_children_response cancel : ChildCommand
  get_dependencies_response : ChildCommand

-- A value of a message. `fields` is an object with a time stamp, a token and options, each of which
-- may be undefined.
pub data Value (V : Type 0) : Type 0 where
  undefined null : Value V
  plain : V → Value V
  fields : Option ℕ → Option String → Option V → Value V

-- `ChildMessage`, which comes from the child.
pub record ChildMessage (V : Type 0) : Type 0 where
  pub cmd : ParentCommand
  pub request_id : Option String
  pub value : Value V
  pub err : Value V

-- The methods of the job that the child can call.
pub data JobCall (V : Type 0) : Type 0 where
  update_progress log_row update_data count_dependencies list_dependencies : Value V → JobCall V
  to_delayed : Option ℕ → Option String → JobCall V
  to_wait : Option String → JobCall V
  to_waiting_children : Option String → Option V → JobCall V
  children_values ignored_children_failures : JobCall V

-- What the parent does on a message: it settles the promise, or it calls the job and perhaps
-- answers with a command under the id of the request.
pub data Reaction (V : Type 0) : Type 0 where
  resolves : Value V → Reaction V
  rejects : Value V → Reaction V
  calls : JobCall V → Option (ChildCommand × Option String) → Reaction V
  ignores : Reaction V

module _ {V : Type 0} where
  -- `a ?? b`.
  abbrev pub or_else : Value V → Value V → Value V
  or_else undefined b = b
  or_else null b = b
  or_else (plain v) b = plain v
  or_else (fields t k o) b = fields t k o

  abbrev timestamp_of : Value V → Option ℕ
  timestamp_of (fields t k o) = t
  timestamp_of undefined = none
  timestamp_of null = none
  timestamp_of (plain v) = none

  abbrev token_of : Value V → Option String
  token_of (fields t k o) = k
  token_of undefined = none
  token_of null = none
  token_of (plain v) = none

  abbrev opts_of : Value V → Option V
  opts_of (fields t k o) = o
  opts_of undefined = none
  opts_of null = none
  opts_of (plain v) = none

  abbrev react_to : ParentCommand → ChildMessage V → Reaction V
  react_to completed m = resolves m.value
  react_to failed m = rejects (or_else m.value m.err)
  react_to error m = rejects (or_else m.value m.err)
  react_to progress m = calls (update_progress m.value) none
  react_to log m = calls (log_row m.value) none
  react_to move_to_delayed m = calls (to_delayed (timestamp_of m.value) (token_of m.value)) none
  react_to move_to_wait m = calls (to_wait (token_of m.value)) none
  react_to move_to_waiting_children m =
      calls (to_waiting_children (token_of m.value) (opts_of m.value))
        (some (move_to_waiting_children_response, m.request_id))
  react_to update m = calls (update_data m.value) none
  react_to get_children_values m =
      calls children_values (some (get_children_values_response, m.request_id))
  react_to get_ignored_children_failures m =
      calls ignored_children_failures (some (get_ignored_children_failures_response, m.request_id))
  react_to get_dependencies_count m =
      calls (count_dependencies m.value) (some (get_dependencies_count_response, m.request_id))
  react_to get_dependencies m =
      calls (list_dependencies m.value) (some (get_dependencies_response, m.request_id))
  react_to init_failed m = ignores
  react_to init_completed m = ignores

  -- The handler of messages.
  unfoldable pub react : ChildMessage V → Reaction V
  react m = react_to m.cmd m

  abbrev pub message : ParentCommand → Option String → Value V → ChildMessage V
  message cmd id v = record { cmd = cmd; request_id = id; value = v; err = undefined }

  -- What the methods of the wrapped job send, `id` being the new id of a request.
  unfoldable pub wrap_job : String → JobCall V → ChildMessage V
  wrap_job id (update_progress v) = message progress none v
  wrap_job id (log_row v) = message log none v
  wrap_job id (update_data v) = message update none v
  wrap_job id (to_delayed t k) = message move_to_delayed none (fields t k none)
  wrap_job id (to_wait k) = message move_to_wait none (fields none k none)
  wrap_job id (to_waiting_children k o) =
      message move_to_waiting_children (some id) (fields none k o)
  wrap_job id children_values = message get_children_values (some id) undefined
  wrap_job id ignored_children_failures = message get_ignored_children_failures (some id) undefined
  wrap_job id (count_dependencies v) = message get_dependencies_count (some id) v
  wrap_job id (list_dependencies v) = message get_dependencies (some id) v

  -- Whether a method waits for a response.
  unfoldable pub waits : JobCall V → Bool
  waits (update_progress v) = false
  waits (log_row v) = false
  waits (update_data v) = false
  waits (to_delayed t k) = false
  waits (to_wait k) = false
  waits (to_waiting_children k o) = true
  waits children_values = true
  waits ignored_children_failures = true
  waits (count_dependencies v) = true
  waits (list_dependencies v) = true

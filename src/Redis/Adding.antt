-- ===== src/Redis/Adding.antt =====
-- `addJobToTransaction`, `addJob`, `addJobs` and `addFlow` of src/classes/redis-queue-backend.ts:
-- the scripts that are called, with their keys and arguments; the payload and the packed options
-- are left out. The server is a parameter.
pub mod Flow
pub mod Refused
use bullmq.Shared.{
  ℕ, ltb, ◌==◌, ◌===◌, if◌then◌else◌, not, Bool, true, false, List, [], ◌∷◌, Option, none, some,
  String, ◌<>◌, map, ℤ, pos, negsuc, Fraction, Outcome, returns, throws, ◌>>=◌, Dict, get, is_given,
}
use bullmq.Job.{JobsOptions, Parent, Job}
use bullmq.Job.Failing.{JobError}
use bullmq.Errors.{get_keys, Arguments, finished_errors, error_of}
use bullmq.FlowProducer.Adding.{Entry}
use bullmq.FlowProducer.Answers.{Answer, text, number, Result}

pub data Command : Type 0 where
  add_parent_job add_delayed_job add_prioritized_job add_standard_job : Command

-- The packed arguments.
pub record Args : Type 0 where
  pub base_key : Option String
  pub job_id : String
  pub name : String
  pub timestamp : ℕ
  pub parent_key : Option String
  pub parent_dependencies_key : Option String
  pub parent : Option Parent
  pub repeat_job_key : Option String
  pub deduplication_key : Option String

pub record Call : Type 0 where
  pub command : Command
  pub keys : List (Option String)
  pub args : Args

-- `ParentKeyOpts`.
pub record ParentKeyOpts : Type 0 where
  pub parent_key : Option String
  pub add_to_waiting_children : Bool
  pub parent_dependencies_key : Option String

-- The types of the keys that each script gets.
abbrev parent_job_keys : List String
parent_job_keys = "meta" ∷ "id" ∷ "delayed" ∷ "waiting-children" ∷ "completed" ∷ "events" ∷ []

abbrev delayed_job_keys : List String
delayed_job_keys = "marker" ∷ "meta" ∷ "id" ∷ "delayed" ∷ "completed" ∷ "events" ∷ []

abbrev prioritized_job_keys : List String
prioritized_job_keys =
    "marker" ∷ "meta" ∷ "id" ∷ "prioritized" ∷ "delayed" ∷ "completed" ∷ "active" ∷ "events" ∷ "pc"
    ∷ []

abbrev standard_job_keys : List String
standard_job_keys =
    "wait" ∷ "paused" ∷ "meta" ∷ "id" ∷ "completed" ∷ "delayed" ∷ "active" ∷ "events" ∷ "marker"
    ∷ []

abbrev key_types : Command → List String
key_types add_parent_job = parent_job_keys
key_types add_delayed_job = delayed_job_keys
key_types add_prioritized_job = prioritized_job_keys
key_types add_standard_job = standard_job_keys

abbrev is_delayed : Option ℕ → Bool
is_delayed none = false
is_delayed (some d) = ltb 0 d

abbrev is_prioritized : Option Fraction → Bool
is_prioritized none = false
is_prioritized (some p) = not (p.numerator == 0)

unfoldable pub command_for : Bool → JobsOptions → Command
command_for add_to_waiting_children o =
    if add_to_waiting_children
    then add_parent_job
    else if is_delayed o.delay
    then add_delayed_job
    else if is_prioritized o.priority
    then add_prioritized_job
    else add_standard_job

-- A text that is not empty, or null.
abbrev pub or_null : Option String → Option String
or_null none = none
or_null (some t) = if t === "" then none else some t

abbrev key_text : Option String → String
key_text none = "undefined"
key_text (some k) = k

abbrev deduplication_key_of : Dict String → Option String → Option String
deduplication_key_of keys id = elim (or_null id) [
  | none ↦ none
  | some d ↦ some (key_text (get "de" keys) <> ":" <> d)
]

-- The call for a job.
unfoldable pub call_of : Job → String → ParentKeyOpts → Dict String → Call
unfolding command_for get
call_of job job_id p keys =
    let command = command_for p.add_to_waiting_children job.opts in
    record {
      command = command;
      keys = map (λ t. get t keys) (key_types command);
      args = record {
        base_key = get "" keys;
        job_id = job_id;
        name = job.name;
        timestamp = job.timestamp;
        parent_key = or_null job.parent_key;
        parent_dependencies_key = or_null p.parent_dependencies_key;
        parent = job.parent;
        repeat_job_key = job.repeat_job_key;
        deduplication_key = deduplication_key_of keys job.deduplication_id;
      };
    }

-- What JavaScript's `<` makes of an answer, where `reads_below_zero` says whether a text read as a
-- number is below 0, and what `finishedErrors` is told then.
pub record Reading : Type 0 where
  pub reads_below_zero : String → Bool
  pub arguments : ℤ → Arguments
  pub arguments_of_text : String → Arguments

-- What `addJobToTransaction` makes of an answer.
unfoldable pub result_of : Reading → Answer → Outcome JobError Answer
unfolding finished_errors error_of
result_of r (text id) =
    if r.reads_below_zero id
    then throws (error_of none (r.arguments_of_text id))
    else returns (text id)
result_of r (number (pos k)) = returns (number (pos k))
result_of r (number (negsuc k)) = throws (finished_errors (r.arguments (negsuc k))).0

-- `addJob`, where the client answers a call.
unfoldable pub add_job :
    Reading → (Call → Answer) → Job → String → ParentKeyOpts → Dict String → Outcome JobError Answer
unfolding call_of result_of
add_job r exec job job_id p keys = result_of r (exec (call_of job job_id p keys))

-- The ids of the answers of a pipeline, up to the first error.
unfoldable pub ids_of : List (Option JobError × Answer) → Outcome JobError (List Answer)
ids_of [] = returns []
ids_of ((some e, id) ∷ rs) = throws e
ids_of ((none, id) ∷ rs) = ids_of rs >>= (λ ids. returns (id ∷ ids))

-- The calls of `addFlow`, in one transaction.
unfoldable pub flow_call : Entry → Call
unfolding call_of get_keys
flow_call e =
    call_of e.job e.job_id
      (record {
        parent_key = e.parent_key;
        add_to_waiting_children = e.add_to_waiting_children;
        parent_dependencies_key = e.parent_dependencies_key;
      })
      (get_keys e.prefix e.queue_name)

unfoldable pub add_flow : (List Call → List Result) → List Entry → List Result
unfolding flow_call
add_flow exec entries = exec (map flow_call entries)

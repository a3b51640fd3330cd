-- ===== src/FlowProducer.antt =====
-- `FlowProducer` of src/classes/flow-producer.ts: the trees of jobs that it takes, with the check
-- of their options.
pub mod Adding
pub mod Answers
pub mod Getting
pub mod Plain
use bullmq.Shared.{
  ℕ, zero, suc, ◌+◌, Bool, true, false, Option, none, some, String, Outcome, throws, returns,
  throw_if, ◌>>◌,
}
use bullmq.Job.{JobsOptions}

-- A job of a flow without its children: what the caller gives, where `size` is the length of its
-- payload as JSON.
pub record Node : Type 0 where
  pub name : String
  pub queue_name : String
  pub prefix : Option String
  pub opts : JobsOptions
  pub size : ℕ

-- `FlowJob`. A missing list of children is an empty one.
mutual
  pub data FlowJob : Type 0 where
    flow : Node → Flows → FlowJob

  pub data Flows : Type 0 where
    none_left : Flows
    followed : FlowJob → Flows → Flows

abbrev pub has_some : Flows → Bool
has_some none_left = false
has_some (followed f fs) = true

abbrev pub node_of : FlowJob → Node
node_of (flow n fs) = n

abbrev pub children_of : FlowJob → Flows
children_of (flow n fs) = fs

-- How many trees stand side by side, and how many jobs trees hold.
unfoldable pub breadth : Flows → ℕ
breadth none_left = 0
breadth (followed f fs) = suc (breadth fs)

unfoldable mutual
  pub size : FlowJob → ℕ
  size (flow n fs) = suc (size_all fs)

  pub size_all : Flows → ℕ
  size_all none_left = 0
  size_all (followed f fs) = size f + size_all fs

-- The one error of `validateFlowJobs`.
pub data Refused : Type 0 where
  deduplication_with_children : Refused

abbrev pub is_deduplicated : Option (Option String) → Bool
is_deduplicated none = false
is_deduplicated (some id) = true

unfoldable mutual
  pub validate_flow_job : FlowJob → Outcome Refused (Unit {0})
  validate_flow_job (flow n none_left) = returns tt
  validate_flow_job (flow n (followed f fs)) = do
    throw_if (is_deduplicated n.opts.deduplication) deduplication_with_children
    validate_flow_jobs (followed f fs)

  pub validate_flow_jobs : Flows → Outcome Refused (Unit {0})
  validate_flow_jobs none_left = returns tt
  validate_flow_jobs (followed f fs) = do validate_flow_job f; validate_flow_jobs fs

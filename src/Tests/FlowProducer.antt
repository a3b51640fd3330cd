-- ===== src/Tests/FlowProducer.antt =====
-- Flows of src/classes/flow-producer.ts, and their calls of src/classes/redis-queue-backend.ts.
use bullmq.Shared.{
  Bool, ℕ, zero, suc, ◌+◌, ◌<◌, ◌≤◌, ◌≡◌, refl, true, false, List, [], ◌∷◌, Option, none, some,
  String, ◌<>◌, length, get_elem?, map, pos, returns, arith,
}
use bullmq.Job.{JobsOptions, Job}
use bullmq.FlowProducer.{Node, FlowJob, Flows, flow, none_left, followed, size_all, breadth}
use bullmq.FlowProducer.Answers.{Result, text, set_id, set_ids}
use bullmq.FlowProducer.Adding.{
  Context, Entry, Adding, empty, Runs, here, resumes, add_nodes, resume, run_all, root_entries,
  entry_of, link_to, link_of_root,
}
use bullmq.FlowProducer.Adding.Tallied.{Mark, tally_entries, tally_all, flows_are_collected}
use bullmq.FlowProducer.Adding.Roots.{answers_fit}
use bullmq.FlowProducer.Getting.{NodeKey, Store, JobNode, get_node}
use bullmq.FlowProducer.Getting.Depth.{tree_height, get_node-within_depth}
use bullmq.Redis.Adding.{add_parent_job, flow_call}
use bullmq.Redis.Adding.Flow.{flow_calls_link}

abbrev pub no_options : JobsOptions
no_options = record {
  attempts = none;
  delay = none;
  priority = none;
  timestamp = none;
  backoff = none;
  parent = none;
  fail_parent_on_failure = false;
  remove_dependency_on_failure = false;
  ignore_dependency_on_failure = false;
  continue_parent_on_failure = false;
  deduplication = none;
  debounce = false;
  job_id = none;
  repeat_job_key = none;
  size_limit = none;
  lifo = false;
  stack_trace_limit = none;
}

abbrev node : String → Option String → Node
node name id = record {
  name = name;
  queue_name = "q";
  prefix = none;
  opts = record no_options { job_id = id };
  size = 2;
}

abbrev leaf : String → FlowJob
leaf name = flow (node name none) none_left

-- A root with two children, of which the second has a child.
abbrev family : Flows
family =
    followed
      (flow (node "root" (some "r")) (
        followed (leaf "a")
          (followed (flow (node "b" (some "b")) (followed (leaf "c") none_left)) none_left)))
      none_left

abbrev pub context : Context
context = record {
  prefix = "bull";
  random_uuid = λ n. elim n [ zero ↦ "u0" | suc m ↦ "u1" ];
  now = λ n. 100 + n;
  print_parse = λ t. "NaN";
}

abbrev started : Adding
started = add_nodes context family empty

abbrev settled : Adding
settled = resume context 0 (resume context 0 started)

settling : Runs context started settled
settling = resumes 0 started _ (resumes 0 started started (here started))

abbrev pub root_entry : Entry
root_entry =
    entry_of context 0 (node "root" (some "r")) true (link_of_root (node "root" (some "r")))

abbrev b_entry : Entry
b_entry = entry_of context 2 (node "b" (some "b")) true (link_to root_entry)

abbrev c_entry : Entry
c_entry = entry_of context 3 (node "c" none) false (link_to b_entry)

last_of_family : get_elem? settled.entries 3 ≡ some c_entry
unfolding resume add_nodes
last_of_family = refl

flows_are_collected_example :
    let s = run_all (size_all family) context (add_nodes context family empty) in
    Runs context (add_nodes context family empty) s
    × (s.tasks ≡ [])
    × (s.failures ≡ []
        → (length s.entries ≡ size_all family)
          × ((p : Mark → Bool) → tally_entries context p s.entries ≡ tally_all context p family))
flows_are_collected_example = flows_are_collected context family

flow_calls_link_example :
    (j : ℕ) × (f : Entry) × (base : String) × (j < 3)
    × (get_elem? settled.entries j ≡ some f)
    × ((flow_call f).command ≡ add_parent_job)
    × ((flow_call f).args.base_key ≡ some base)
    × ((flow_call c_entry).args.parent_key ≡ some (base <> (flow_call f).args.job_id))
    × ((flow_call c_entry).args.parent_dependencies_key
        ≡ some (base <> (flow_call f).args.job_id <> ":dependencies"))
unfolding add_nodes
flow_calls_link_example =
    flow_calls_link context family settled 3 c_entry settling (omega arith) last_of_family

abbrev answers : List Result
answers = record { err = none; job_id = text "r7" } ∷ []

answers_fit_example :
    (e : Entry) × (get_elem? (root_entries context 0 family) 0 ≡ some e)
    × (get_elem? settled.entries 0 ≡ some e)
    × (get_elem? (set_ids answers (map (λ f. f.job) (root_entries context 0 family))) 0
        ≡ some (set_id (get_elem? answers 0) e.job))
unfolding resume add_nodes breadth
answers_fit_example = answers_fit context family settled answers 0 settling refl (omega arith)

-- A store in which every job has one more, still unprocessed, child.
abbrev pub stored : Job
stored = root_entry.job

abbrev endless : Store
endless = record {
  from_id = λ k. some stored;
  get_dependencies =
      λ k n. record { processed = []; unprocessed = "bull:q:x" ∷ []; failed = []; ignored = [] };
  parse_node_key = λ k. record { prefix = "bull"; queue_name = "q"; id = "x" };
}

abbrev root_key : NodeKey
root_key = record { prefix = "bull"; queue_name = "q"; id = "r" }

get_node-within_depth_example :
    (o : Option JobNode) × (get_node 5 endless 20 root_key (pos 3) ≡ returns o)
    × (tree_height o ≤ 3)
get_node-within_depth_example = get_node-within_depth 5 endless 20 root_key 2 (omega arith)

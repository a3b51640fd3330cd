-- ===== src/FlowProducer/Adding.antt =====
-- `add`, `addBulk` and `addNode` of src/classes/flow-producer.ts without `queuesOptions`: the
-- entries of the jobs are collected one after the other, while continuations wait; then the backend
-- gets them all. A continuation is run at any time, in any order.
pub mod Collected
pub mod Tallied
pub mod Order
pub mod Roots
use bullmq.Shared.{
  ℕ, zero, suc, ◌+◌, ◌≡◌, if◌then◌else◌, Bool, true, false, List, [], ◌∷◌, ◌++◌, Option, none, some,
  String, ◌<>◌, ◌===◌, length, get_elem?, Outcome, returns, throws,
}
use bullmq.Job.{JobsOptions, ParentOptions, Job}
use bullmq.Job.Options.{get_parent_key, new, Invalid, validate_options}
use bullmq.Errors.{to_key, get_queue_qualified_name}
use bullmq.FlowProducer.{Node, FlowJob, Flows, flow, none_left, followed, has_some}

-- The prefix of the producer, and what the runtime gives to the n-th call of `addNode`, a new id
-- and the time, and `${parseInt(id, 10)}`.
pub record Context : Type 0 where
  pub prefix : String
  pub random_uuid : ℕ → String
  pub now : ℕ → ℕ
  pub print_parse : String → String

-- What `addNode` is told of the parent.
pub record Link : Type 0 where
  pub parent_opts : Option ParentOptions
  pub dependencies_key : Option String

-- `FlowJobEntry`.
pub record Entry : Type 0 where
  pub job : Job
  pub job_id : String
  pub add_to_waiting_children : Bool
  pub parent_dependencies_key : Option String
  pub parent_key : Option String
  pub prefix : String
  pub queue_name : String

-- A call of `addNode` that waits after its entry has been collected, to add these children.
pub record Task : Type 0 where
  pub nodes : Flows
  pub link : Link

-- `made` counts the calls of `addNode`, and `failures` are the errors that they have thrown.
pub record Adding : Type 0 where
  pub entries : List Entry
  pub made : ℕ
  pub tasks : List Task
  pub failures : List Invalid

abbrev pub empty : Adding
empty = record { entries = []; made = 0; tasks = []; failures = [] }

abbrev or_text : Option String → String → String
or_text none d = d
or_text (some t) d = if t === "" then d else t

abbrev dependencies_of : Option String → Option String
dependencies_of none = none
dependencies_of (some key) = some (key <> ":dependencies")

-- The link of a root, from the options of its flow.
unfoldable pub link_of_root : Node → Link
unfolding get_parent_key
link_of_root n = record {
  parent_opts = n.opts.parent;
  dependencies_key = dependencies_of (get_parent_key n.opts.parent);
}

-- The link that the children of an entry get.
unfoldable pub link_to : Entry → Link
unfolding to_key get_queue_qualified_name
link_to e = record {
  parent_opts =
      some (record { id = e.job_id; queue = get_queue_qualified_name e.prefix e.queue_name });
  dependencies_key = some (to_key e.prefix e.queue_name e.job_id <> ":dependencies");
}

-- The entry of a node, in the n-th call of `addNode`.
unfoldable pub entry_of : Context → ℕ → Node → Bool → Link → Entry
unfolding get_parent_key new
entry_of c n node has_children l =
    let prefix = or_text node.prefix c.prefix in
    let job_id = or_text node.opts.job_id (c.random_uuid n) in
    record {
      job = new (c.now n) node.name (record node.opts { parent = l.parent_opts }) (some job_id);
      job_id = job_id;
      add_to_waiting_children = has_children;
      parent_dependencies_key = l.dependencies_key;
      parent_key = get_parent_key l.parent_opts;
      prefix = prefix;
      queue_name = node.queue_name;
    }

-- The task of a node that has children.
unfoldable pub tasks_of : Flows → Entry → List Task
unfolding link_to
tasks_of none_left e = []
tasks_of (followed f fs) e = record { nodes = followed f fs; link = link_to e } ∷ []

-- `collectFlowEntry`, which validates the options first.
unfoldable pub collect : Outcome Invalid (Unit {0}) → Flows → Entry → Adding → Adding
unfolding tasks_of
collect (throws x) fs e s = record s { made = suc s.made; failures = s.failures ++ x ∷ [] }
collect (returns u) fs e s = record s {
  made = suc s.made;
  entries = s.entries ++ e ∷ [];
  tasks = s.tasks ++ tasks_of fs e;
}

unfoldable pub add_node : Context → Node → Flows → Link → Adding → Adding
unfolding collect entry_of validate_options
add_node c n fs l s =
    let e = entry_of c s.made n (has_some fs) l in
    collect (validate_options c.print_parse n.size e.job) fs e s

-- `addChildren`: all are called before any continues.
unfoldable pub add_children : Context → Flows → Link → Adding → Adding
unfolding add_node
add_children c none_left l s = s
add_children c (followed (flow n fs) rest) l s = add_children c rest l (add_node c n fs l s)

-- `addNodes`, and `add` with one flow.
unfoldable pub add_nodes : Context → Flows → Adding → Adding
unfolding add_node link_of_root
add_nodes c none_left s = s
add_nodes c (followed (flow n fs) rest) s = add_nodes c rest (add_node c n fs (link_of_root n) s)

abbrev pub without {ℓ} : {A : Type ℓ} → ℕ → List A → List A
without i [] = []
without zero (x ∷ xs) = xs
without (suc i) (x ∷ xs) = x ∷ without i xs

-- The i-th continuation runs, if there is one.
unfoldable pub resume : Context → ℕ → Adding → Adding
unfolding add_children
resume c i s = elim (get_elem? s.tasks i) [
  | none ↦ s
  | some t ↦ add_children c t.nodes t.link (record s { tasks = without i s.tasks })
]

pub data Runs (c : Context) : Adding → Adding → Type 0 where
  here : (s : Adding) → Runs c s s
  resumes : (i : ℕ) (s s' : Adding) → Runs c s s' → Runs c s (resume c i s')

-- The continuations in the order in which they came, as the runtime takes them.
unfoldable pub run_all : ℕ → Context → Adding → Adding
unfolding resume
run_all zero c s = s
run_all (suc fuel) c s = run_all fuel c (resume c 0 s)

-- The entries of the roots, whose jobs are the roots of the trees that `addNodes` returns.
unfoldable pub root_entries : Context → ℕ → Flows → List Entry
unfolding entry_of link_of_root
root_entries c n none_left = []
root_entries c n (followed (flow m fs) rest) =
    entry_of c n m (has_some fs) (link_of_root m) ∷ root_entries c (suc n) rest

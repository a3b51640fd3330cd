-- ===== src/FlowProducer/Getting.antt =====
-- `getFlow`, `getNode` and `getChildren` of src/classes/flow-producer.ts, and `parseNodeKey` as
-- a function of the backend.
pub mod Depth
use bullmq.Shared.{
  ℕ, zero, suc, ◌+◌, ◌-◌, ◌==◌, ltb, if◌then◌else◌, Bool, true, false, not, ◌&&◌, List, [], ◌∷◌,
  ◌++◌, Option, none, some, String, length, ℤ, pos, negsuc, is_zero, Outcome, returns, throws,
  ◌>>=◌,
}
use bullmq.Job.{Job}

-- Where a job is: `prefix`, `queueName` and `id`.
pub record NodeKey : Type 0 where
  pub prefix : String
  pub queue_name : String
  pub id : String

-- `getDependencies`, as keys; of `processed` and `ignored` the values are left out.
pub record Dependencies : Type 0 where
  pub processed : List String
  pub unprocessed : List String
  pub failed : List String
  pub ignored : List String

-- The backend: `fromId`, `getDependencies` with a limit for each kind, and `parseNodeKey`.
pub record Store : Type 0 where
  pub from_id : NodeKey → Option Job
  pub get_dependencies : NodeKey → ℕ → Dependencies
  pub parse_node_key : String → NodeKey

-- `JobNode`, and the children, among which `undefined` stands for a job that is missing.
mutual
  pub data JobNode : Type 0 where
    job_node : Job → Nodes → JobNode

  pub data Nodes : Type 0 where
    no_nodes : Nodes
    found : JobNode → Nodes → Nodes
    missing : Nodes → Nodes

pub data OutOfFuel : Type 0 where
  out_of_fuel : OutOfFuel

unfoldable pub child_keys : Dependencies → List String
child_keys d = d.processed ++ (d.unprocessed ++ (d.failed ++ d.ignored))

abbrev or_else {ℓ} : {A : Type ℓ} → Option A → A → A
or_else none d = d
or_else (some a) d = a

-- The depth of the children.
abbrev pub less_one : ℤ → ℤ
less_one (pos zero) = negsuc 0
less_one (pos (suc n)) = pos n
less_one (negsuc n) = negsuc (suc n)

abbrev pub add_found : Option JobNode → Nodes → Nodes
add_found none ns = missing ns
add_found (some n) ns = found n ns

-- The children of all keys, each by one call.
unfoldable pub get_children :
    (String → Outcome OutOfFuel (Option JobNode)) → List String → Outcome OutOfFuel Nodes
get_children get_child [] = returns no_nodes
get_children get_child (k ∷ ks) =
    get_child k >>= (λ o. get_children get_child ks >>= (λ ns. returns (add_found o ns)))

-- `childrenCount > 0 && newDepth`.
abbrev pub descends : List String → ℤ → Bool
descends [] depth = false
descends (k ∷ ks) depth = not (is_zero depth)

abbrev pub with_children : Job → Outcome OutOfFuel Nodes → Outcome OutOfFuel (Option JobNode)
with_children job m = m >>= (λ ns. returns (some (job_node job ns)))

-- `getNode`, on fuel, since there are depths that no descent uses up.
unfoldable pub get_node : ℕ → Store → ℕ → NodeKey → ℤ → Outcome OutOfFuel (Option JobNode)
unfolding get_children child_keys
get_node zero s max_children key depth = throws out_of_fuel
get_node (suc fuel) s max_children key depth = elim (s.from_id key) [
  | none ↦ returns none
  | some job ↦
      let keys = child_keys (s.get_dependencies key max_children) in
      elim (descends keys (less_one depth)) [
        | false ↦ returns (some (job_node job no_nodes))
        | true ↦ with_children job (
            get_children (λ k. get_node fuel s max_children (s.parse_node_key k) (less_one depth))
              keys)
      ]
]

-- `getFlow`, with its defaults: depth 10, at most 20 children of each kind, and the prefix of the
-- producer.
unfoldable pub get_flow :
    ℕ
    → Store
    → String
    → Option String
    → String
    → String
    → Option ℤ
    → Option ℕ
    → Outcome OutOfFuel (Option JobNode)
unfolding get_node
get_flow fuel s own prefix queue_name id depth max_children =
    get_node fuel s (or_else max_children 20)
      (record { prefix = or_else prefix own; queue_name = queue_name; id = id })
      (or_else depth (pos 10))

-- ===== src/FlowProducer/Getting/Depth.antt =====
-- How deep `getNode` of src/classes/flow-producer.ts descends.
use bullmq.Shared.{
  ℕ, zero, suc, ◌≤◌, ◌≡◌, refl, max, true, false, List, [], ◌∷◌, Option, none, some, String, ℤ, pos,
  negsuc, Outcome, returns, throws, arith, Option-cases, Bool-cases, inl, inr, fun_ext, ap,
}
use bullmq.Job.{Job}
use bullmq.FlowProducer.Getting.{
  NodeKey, Store, JobNode, Nodes, job_node, no_nodes, found, missing, OutOfFuel, out_of_fuel,
  child_keys, descends, with_children, add_found, get_children, get_node,
}

unfoldable mutual
  pub height : JobNode → ℕ
  height (job_node job ns) = suc (height_all ns)

  pub height_all : Nodes → ℕ
  height_all no_nodes = 0
  height_all (found n ns) = max (height n) (height_all ns)
  height_all (missing ns) = height_all ns

abbrev pub tree_height : Option JobNode → ℕ
tree_height none = 0
tree_height (some n) = height n

-- A call that returns a tree of at most this height.
abbrev Within : ℕ → Outcome OutOfFuel (Option JobNode) → Type 0
Within d m = (o : Option JobNode) × (m ≡ returns o) × (tree_height o ≤ d)

add_found-height :
    (d : ℕ) (o : Option JobNode) (ns : Nodes)
    → tree_height o ≤ d
    → height_all ns ≤ d
    → height_all (add_found o ns) ≤ d
unfolding height
add_found-height d none ns h g = g
add_found-height d (some n) ns h g = omega arith

get_children-Within :
    (d : ℕ) (get_child : String → Outcome OutOfFuel (Option JobNode)) (ks : List String)
    → ((k : String) → Within d (get_child k))
    → (ns : Nodes) × (get_children get_child ks ≡ returns ns) × (height_all ns ≤ d)
unfolding get_children height
get_children-Within d get_child [] h = (no_nodes, refl, omega arith)
get_children-Within d get_child (k ∷ ks) h =
    let (o, e, b) = h k in
    let (ns, e', b') = get_children-Within d get_child ks h in
    (add_found o ns, rw (e, e') refl, add_found-height d o ns b b')

-- The children, if the call for each of them is within its depth.
deeper :
    (d : ℕ) (keys : List String) (get_child : ℤ → String → Outcome OutOfFuel (Option JobNode))
    → descends keys (pos d) ≡ true
    → ((d' : ℕ) (k : String) → suc d' ≤ d → Within (suc d') (get_child (pos (suc d')) k))
    → (ns : Nodes) × (get_children (get_child (pos d)) keys ≡ returns ns) × (height_all ns ≤ d)
deeper d [] get_child b h = absurd (cc)
deeper zero (k ∷ ks) get_child b h = absurd (cc)
deeper (suc d) (k ∷ ks) get_child b h =
    get_children-Within (suc d) (get_child (pos (suc d))) (k ∷ ks) (λ j. h d j (omega arith))

-- From a depth of 1 on, and with at least that much fuel, the call returns a tree that is no higher
-- than the depth, whatever the backend answers.
pub get_node-within_depth :
    (fuel : ℕ) (s : Store) (max_children : ℕ) (key : NodeKey) (d : ℕ)
    → suc d ≤ fuel
    → (o : Option JobNode) × (get_node fuel s max_children key (pos (suc d)) ≡ returns o)
      × (tree_height o ≤ suc d)
unfolding get_node height
get_node-within_depth zero s m key d h = absurd (omega arith)
get_node-within_depth (suc fuel) s m key d h = elim (Option-cases (s.from_id key)) [
  | inl e ↦ (none, rw (e, get_node) refl, omega arith)
  | inr (job, e) ↦
      let keys = child_keys (s.get_dependencies key m) in
      elim (Bool-cases (descends keys (pos d))) [
        | inl b ↦
            let (ns, e', g) =
              deeper d keys (λ depth k. get_node fuel s m (s.parse_node_key k) depth) b
                (λ d' k g. get_node-within_depth fuel s m (s.parse_node_key k) d' (omega arith)) in
            (some (job_node job ns), rw (e, b, e', get_node) refl, omega arith)
        | inr b ↦ (some (job_node job no_nodes), rw (e, b, get_node) refl, omega arith)
      ]
]

-- `getNode` without a depth.
unfoldable pub get_whole : ℕ → Store → ℕ → NodeKey → Outcome OutOfFuel (Option JobNode)
unfolding get_children child_keys
get_whole zero s max_children key = throws out_of_fuel
get_whole (suc fuel) s max_children key = elim (s.from_id key) [
  | none ↦ returns none
  | some job ↦ with_children job (
      get_children (λ k. get_whole fuel s max_children (s.parse_node_key k))
        (child_keys (s.get_dependencies key max_children)))
]

unlimited_step :
    (job : Job) (keys : List String) (n : ℕ) (f g : String → Outcome OutOfFuel (Option JobNode))
    → ((k : String) → f k ≡ g k)
    → elim (descends keys (negsuc n)) [
      | false ↦ returns (some (job_node job no_nodes))
      | true ↦ with_children job (get_children f keys)
    ]
      ≡ with_children job (get_children g keys)
unfolding get_children
unlimited_step job [] n f g h = refl
unlimited_step job (k ∷ ks) n f g h =
    ap (λ r. with_children job (get_children r (k ∷ ks))) (fun_ext h)

negative_is_unlimited :
    (fuel : ℕ) (s : Store) (m : ℕ) (key : NodeKey) (n : ℕ)
    → get_node fuel s m key (negsuc n) ≡ get_whole fuel s m key
unfolding get_node get_whole
negative_is_unlimited zero s m key n = refl
negative_is_unlimited (suc fuel) s m key n = elim (Option-cases (s.from_id key)) [
  | inl e ↦ rw (e, get_node, get_whole) refl
  | inr (job, e) ↦
      rw (e, get_node, get_whole)
        (unlimited_step job (child_keys (s.get_dependencies key m)) (suc n) _ _
          (λ k. negative_is_unlimited fuel s m (s.parse_node_key k) (suc n)))
]

-- Depth 0 is no limit: the call is one that descends as far as there are children.
pub depth_zero_is_unlimited :
    (fuel : ℕ) (s : Store) (max_children : ℕ) (key : NodeKey)
    → get_node fuel s max_children key (pos 0) ≡ get_whole fuel s max_children key
unfolding get_node get_whole
depth_zero_is_unlimited zero s m key = refl
depth_zero_is_unlimited (suc fuel) s m key = elim (Option-cases (s.from_id key)) [
  | inl e ↦ rw (e, get_node, get_whole) refl
  | inr (job, e) ↦
      rw (e, get_node, get_whole)
        (unlimited_step job (child_keys (s.get_dependencies key m)) 0 _ _
          (λ k. negative_is_unlimited fuel s m (s.parse_node_key k) 0))
]

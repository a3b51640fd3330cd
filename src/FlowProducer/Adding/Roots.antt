-- ===== src/FlowProducer/Adding/Roots.antt =====
-- The answers of the backend that `addBulk` of src/classes/flow-producer.ts gives to the roots.
use bullmq.Shared.{
  ℕ, zero, suc, ◌<◌, ◌≡◌, refl, sym, ap, subst, ◌∙◌, List, [], ◌∷◌, ◌++◌, some, length, get_elem?,
  map, Outcome, returns, throws, arith, append_assoc, append-nil,
}
use bullmq.Job.Options.{Invalid}
use bullmq.FlowProducer.{Flows, flow, none_left, followed, has_some, breadth}
use bullmq.FlowProducer.Answers.{Result, set_id, set_ids}
use bullmq.FlowProducer.Adding.{
  Context, Entry, Adding, empty, Runs, collect, add_node, entry_of, link_of_root, add_nodes,
  root_entries,
}
use bullmq.FlowProducer.Adding.Order.{
  IsOrdered, starts, next, get_elem?-append, children_after_parents,
}
use bullmq.FlowProducer.Adding.Collected.{Runs-keeps, append-nonempty, add_nodes-Adds}

collect-returned :
    (m : Outcome Invalid (Unit {0})) (fs : Flows) (e : Entry) (s : Adding)
    → (collect m fs e s).failures ≡ []
    → ((collect m fs e s).entries ≡ s.entries ++ e ∷ []) × ((collect m fs e s).made ≡ suc s.made)
unfolding collect
collect-returned (throws x) fs e s h = absurd (append-nonempty s.failures x h)
collect-returned (returns u) fs e s h = (refl, refl)

add_nodes-root_entries :
    (c : Context) (fs : Flows) (s : Adding)
    → (add_nodes c fs s).failures ≡ []
    → (add_nodes c fs s).entries ≡ s.entries ++ root_entries c s.made fs
unfolding add_nodes root_entries add_node
add_nodes-root_entries c none_left s h = sym (append-nil s.entries)
add_nodes-root_entries c (followed (flow n fs) rest) s h =
    let s' = add_node c n fs (link_of_root n) s in
    let e = entry_of c s.made n (has_some fs) (link_of_root n) in
    let (p, q) = collect-returned _ fs e s ((add_nodes-Adds c rest s').0 h).0 in
    add_nodes-root_entries c rest s' h
    ∙ rw (p, q) (append_assoc s.entries (e ∷ []) (root_entries c (suc s.made) rest))

length-root_entries : (c : Context) (n : ℕ) (fs : Flows) → length (root_entries c n fs) ≡ breadth fs
unfolding root_entries breadth
length-root_entries c n none_left = refl
length-root_entries c n (followed (flow m fs) rest) = ap suc (length-root_entries c (suc n) rest)

IsOrdered-get_elem? :
    (roots es : List Entry) (i : ℕ) (e : Entry)
    → IsOrdered roots es
    → get_elem? roots i ≡ some e
    → get_elem? es i ≡ some e
IsOrdered-get_elem? roots _ i e starts h = h
IsOrdered-get_elem? roots _ i e (next es f o p) h =
    get_elem?-append es (f ∷ []) i e (IsOrdered-get_elem? roots es i e o h)

get_elem?-some : (es : List Entry) (i : ℕ) → i < length es → (e : Entry) × (get_elem? es i ≡ some e)
get_elem?-some [] i h = absurd (omega arith)
get_elem?-some (x ∷ es) zero h = (x, refl)
get_elem?-some (x ∷ es) (suc i) h = get_elem?-some es i (omega arith)

same : (f e : Entry) → some f ≡ some e → f ≡ e
same f e h = cc

set_ids-get_elem? :
    (rs : List Result) (es : List Entry) (i : ℕ) (e : Entry)
    → get_elem? es i ≡ some e
    → get_elem? (set_ids rs (map (λ f. f.job) es)) i ≡ some (set_id (get_elem? rs i) e.job)
unfolding set_ids
set_ids-get_elem? rs [] i e h = absurd (cc)
set_ids-get_elem? [] (f ∷ es) zero e h = ap (λ (x : Entry). some x.job) (same f e h)
set_ids-get_elem? [] (f ∷ es) (suc i) e h = set_ids-get_elem? [] es i e h
set_ids-get_elem? (r ∷ rs) (f ∷ es) zero e h =
    ap (λ (x : Entry). some (set_id (some r) x.job)) (same f e h)
set_ids-get_elem? (r ∷ rs) (f ∷ es) (suc i) e h = set_ids-get_elem? rs es i e h

-- When no options have been refused, the i-th answer of the backend, which is the one for the
-- i-th entry, is used for the root of the i-th flow, and the i-th entry is that root's.
pub answers_fit :
    (c : Context) (flows : Flows) (s : Adding) (answers : List Result) (i : ℕ)
    → Runs c (add_nodes c flows empty) s
    → s.failures ≡ []
    → i < breadth flows
    → (e : Entry) × (get_elem? (root_entries c 0 flows) i ≡ some e)
      × (get_elem? s.entries i ≡ some e)
      × (get_elem? (set_ids answers (map (λ f. f.job) (root_entries c 0 flows))) i
          ≡ some (set_id (get_elem? answers i) e.job))
answers_fit c flows s answers i r h b =
    let roots = root_entries c 0 flows in
    let none_refused = (Runs-keeps c _ s r h).0 in
    let (e, at) = get_elem?-some roots i (omega (arith, length-root_entries c 0 flows)) in
    let first = add_nodes-root_entries c flows empty none_refused in
    let o = children_after_parents c flows s r in
    (
      e,
      at,
      IsOrdered-get_elem? roots s.entries i e (subst (λ es. IsOrdered es s.entries) first o) at,
      set_ids-get_elem? answers roots i e at,
    )

-- ===== src/FlowProducer/Adding/Order.antt =====
-- The order of the entries that the calls of `addNode` of src/classes/flow-producer.ts collect.
use bullmq.Shared.{
  ℕ, zero, suc, ◌≡◌, refl, ap, subst, true, List, [], ◌∷◌, ◌++◌, Option, none, some, length,
  get_elem?, All, All-append, All-map, Outcome, returns, throws,
}
use bullmq.Job.Options.{Invalid, validate_options, get_parent_key}
use bullmq.FlowProducer.{Node, Flows, flow, none_left, followed, has_some}
use bullmq.FlowProducer.Adding.{
  Context, Link, Entry, Task, Adding, empty, Runs, here, resumes, without, tasks_of, collect,
  add_node, entry_of, link_of_root, link_to, add_children, add_nodes, resume,
}

-- A list has an entry with children to which this link leads.
abbrev Covered : List Entry → Link → Type 0
Covered es l =
    (i : ℕ) × (f : Entry) × (get_elem? es i ≡ some f)
    × (f.add_to_waiting_children ≡ true)
    × (l ≡ link_to f)

-- An entry names as its parent one of the entries of a list, which is added to the jobs that wait
-- for children and under whose dependencies it is to be put.
abbrev pub Follows : List Entry → Entry → Type 0
Follows es e =
    (i : ℕ) × (f : Entry) × (get_elem? es i ≡ some f)
    × (f.add_to_waiting_children ≡ true)
    × (e.job.opts.parent ≡ (link_to f).parent_opts)
    × (e.job.parent_key ≡ get_parent_key (link_to f).parent_opts)
    × (e.parent_key ≡ get_parent_key (link_to f).parent_opts)
    × (e.parent_dependencies_key ≡ (link_to f).dependencies_key)

-- The first list, and after it entries that follow what stands before them.
pub data IsOrdered (roots : List Entry) : List Entry → Type 0 where
  starts : IsOrdered roots roots
  next :
      (es : List Entry) (e : Entry)
      → IsOrdered roots es
      → Follows es e
      → IsOrdered roots (es ++ e ∷ [])

pub get_elem?-append :
    (es fs : List Entry) (i : ℕ) (e : Entry)
    → get_elem? es i ≡ some e
    → get_elem? (es ++ fs) i ≡ some e
get_elem?-append [] fs i e h = absurd (cc)
get_elem?-append (x ∷ es) fs zero e h = h
get_elem?-append (x ∷ es) fs (suc i) e h = get_elem?-append es fs i e h

get_elem?-last : (es : List Entry) (e : Entry) → get_elem? (es ++ e ∷ []) (length es) ≡ some e
get_elem?-last [] e = refl
get_elem?-last (x ∷ es) e = get_elem?-last es e

Covered-append : (es fs : List Entry) (l : Link) → Covered es l → Covered (es ++ fs) l
Covered-append es fs l (i, f, g, w, e) = (i, f, get_elem?-append es fs i f g, w, e)

-- Every continuation adds children of an entry that is there.
abbrev HasParents : Adding → Type 0
HasParents s = All (λ t. Covered s.entries t.link) s.tasks

tasks_of-Covered :
    (es : List Entry) (fs : Flows) (e : Entry)
    → e.add_to_waiting_children ≡ has_some fs
    → All (λ t. Covered (es ++ e ∷ []) t.link) (tasks_of fs e)
unfolding tasks_of
tasks_of-Covered es none_left e h = tt
tasks_of-Covered es (followed f fs) e h = ((length es, e, get_elem?-last es e, h, refl), tt)

collect-HasParents :
    (m : Outcome Invalid (Unit {0})) (fs : Flows) (e : Entry) (s : Adding)
    → e.add_to_waiting_children ≡ has_some fs
    → HasParents s
    → HasParents (collect m fs e s)
unfolding collect
collect-HasParents (throws x) fs e s h p = p
collect-HasParents (returns u) fs e s h p =
    All-append _ s.tasks (tasks_of fs e)
      (All-map _ (λ t. Covered (s.entries ++ e ∷ []) t.link) s.tasks
        (λ t q. Covered-append s.entries (e ∷ []) t.link q) p)
      (tasks_of-Covered s.entries fs e h)

add_node-HasParents :
    (c : Context) (n : Node) (fs : Flows) (l : Link) (s : Adding)
    → HasParents s
    → HasParents (add_node c n fs l s)
unfolding add_node entry_of
add_node-HasParents c n fs l s p = collect-HasParents _ fs _ s refl p

add_nodes-HasParents :
    (c : Context) (fs : Flows) (s : Adding) → HasParents s → HasParents (add_nodes c fs s)
unfolding add_nodes
add_nodes-HasParents c none_left s p = p
add_nodes-HasParents c (followed (flow n fs) rest) s p =
    add_nodes-HasParents c rest _ (add_node-HasParents c n fs (link_of_root n) s p)

-- A node added under a link to an entry that is there.
collect-IsOrdered :
    (roots : List Entry) (m : Outcome Invalid (Unit {0})) (fs : Flows) (e : Entry) (s : Adding)
    → Follows s.entries e
    → IsOrdered roots s.entries
    → IsOrdered roots (collect m fs e s).entries
unfolding collect
collect-IsOrdered roots (throws x) fs e s p o = o
collect-IsOrdered roots (returns u) fs e s p o = next s.entries e o p

add_node-IsOrdered :
    (roots : List Entry) (c : Context) (n : Node) (fs : Flows) (l : Link) (s : Adding)
    → Covered s.entries l
    → IsOrdered roots s.entries
    → IsOrdered roots (add_node c n fs l s).entries
unfolding add_node entry_of bullmq.Job.Options.new
add_node-IsOrdered roots c n fs l s (i, f, g, w, e) o =
    collect-IsOrdered roots _ fs _ s
      (
        i,
        f,
        g,
        w,
        ap (λ k. k.parent_opts) e,
        ap (λ k. get_parent_key k.parent_opts) e,
        ap (λ k. get_parent_key k.parent_opts) e,
        ap (λ k. k.dependencies_key) e,
      )
      o

collect-Covered :
    (m : Outcome Invalid (Unit {0})) (fs : Flows) (e : Entry) (k : Link) (s : Adding)
    → Covered s.entries k
    → Covered (collect m fs e s).entries k
unfolding collect
collect-Covered (throws x) fs e k s p = p
collect-Covered (returns u) fs e k s p = Covered-append s.entries (e ∷ []) k p

add_node-Covered :
    (c : Context) (n : Node) (fs : Flows) (l k : Link) (s : Adding)
    → Covered s.entries k
    → Covered (add_node c n fs l s).entries k
unfolding add_node
add_node-Covered c n fs l k s p = collect-Covered _ fs _ k s p

add_children-keeps :
    (roots : List Entry) (c : Context) (fs : Flows) (l : Link) (s : Adding)
    → Covered s.entries l
    → IsOrdered roots s.entries
    → HasParents s
    → IsOrdered roots (add_children c fs l s).entries × HasParents (add_children c fs l s)
unfolding add_children
add_children-keeps roots c none_left l s p o q = (o, q)
add_children-keeps roots c (followed (flow n fs) rest) l s p o q =
    add_children-keeps roots c rest l (add_node c n fs l s) (add_node-Covered c n fs l l s p)
      (add_node-IsOrdered roots c n fs l s p o) (add_node-HasParents c n fs l s q)

without-All :
    (P : Task → Type 0) (i : ℕ) (ts : List Task) (t : Task)
    → get_elem? ts i ≡ some t
    → All P ts
    → P t × All P (without i ts)
without-All P i [] t h p = absurd (cc)
without-All P zero (u ∷ ts) t h p = (subst P (cc) p.0, p.1)
without-All P (suc i) (u ∷ ts) t h p = let (x, y) = without-All P i ts t h p.1 in (x, (p.0, y))

resume-keeps :
    (roots : List Entry) (c : Context) (i : ℕ) (s : Adding) (o : Option Task)
    → get_elem? s.tasks i ≡ o
    → IsOrdered roots s.entries × HasParents s
    → IsOrdered roots (resume c i s).entries × HasParents (resume c i s)
unfolding resume
resume-keeps roots c i s none h (o, q) = rw (h, resume) (o, q)
resume-keeps roots c i s (some t) h (o, q) =
    let (x, y) = without-All _ i s.tasks t h q in
    rw (h, resume)
      (add_children-keeps roots c t.nodes t.link (record s { tasks = without i s.tasks }) x o y)

Runs-keeps :
    (c : Context) (s s' : Adding)
    → HasParents s
    → Runs c s s'
    → IsOrdered s.entries s'.entries × HasParents s'
Runs-keeps c s _ q (here _) = (starts, q)
Runs-keeps c s _ q (resumes i _ s' r) = resume-keeps s.entries c i s' _ refl (Runs-keeps c s s' q r)

-- In whatever order the continuations run, the entries of the roots stay the first ones, and
-- every later entry names as its parent an entry that stands before it, one that is added to the
-- jobs that wait for children.
pub children_after_parents :
    (c : Context) (flows : Flows) (s : Adding)
    → Runs c (add_nodes c flows empty) s
    → IsOrdered (add_nodes c flows empty).entries s.entries
children_after_parents c flows s r = (Runs-keeps c _ s (add_nodes-HasParents c flows empty tt) r).0

-- ===== src/FlowProducer/Adding/Collected.antt =====
-- How many entries the calls of `addNode` of src/classes/flow-producer.ts collect, in whatever
-- order the continuations run.
use bullmq.Shared.{
  ℕ, zero, suc, ◌+◌, ◌≤◌, ◌<◌, ◌≡◌, refl, ap, subst, List, [], ◌∷◌, ◌++◌, Option, none, some,
  length, get_elem?, Outcome, returns, throws, arith, length-append,
}
use bullmq.Job.Options.{Invalid}
use bullmq.FlowProducer.{Node, Flows, flow, none_left, followed, size, size_all}
use bullmq.FlowProducer.Adding.{
  Context, Link, Entry, Task, Adding, empty, Runs, here, resumes, without, tasks_of, collect,
  add_node, link_of_root, add_children, add_nodes, resume, run_all,
}

-- The jobs that continuations have still to add, and how long they can take at most.
abbrev pub waiting : List Task → ℕ
waiting [] = 0
waiting (t ∷ ts) = size_all t.nodes + waiting ts

abbrev pub time_left : List Task → ℕ
time_left [] = 0
time_left (t ∷ ts) = suc (size_all t.nodes) + time_left ts

waiting-append : (ts us : List Task) → waiting (ts ++ us) ≡ waiting ts + waiting us
waiting-append [] us = omega arith
waiting-append (t ∷ ts) us = omega (arith, waiting-append ts us)

time_left-append : (ts us : List Task) → time_left (ts ++ us) ≡ time_left ts + time_left us
time_left-append [] us = omega arith
time_left-append (t ∷ ts) us = omega (arith, time_left-append ts us)

waiting-tasks_of : (fs : Flows) (e : Entry) → waiting (tasks_of fs e) ≡ size_all fs
unfolding tasks_of size
waiting-tasks_of none_left e = refl
waiting-tasks_of (followed f fs) e = omega arith

time_left-tasks_of : (fs : Flows) (e : Entry) → time_left (tasks_of fs e) ≤ suc (size_all fs)
unfolding tasks_of size
time_left-tasks_of none_left e = omega arith
time_left-tasks_of (followed f fs) e = omega arith

-- `s'` has come from `s` by calls that have `n` jobs to add.
abbrev Adds : ℕ → Adding → Adding → Type 0
Adds n s s' =
    (s'.failures ≡ []
      → (s.failures ≡ [])
        × (length s'.entries + waiting s'.tasks ≡ length s.entries + waiting s.tasks + n))
    × (time_left s'.tasks ≤ time_left s.tasks + n)

pub append-nonempty {ℓ} : {A : Type ℓ} (xs : List A) (x : A) → xs ++ x ∷ [] ≡ [] → ⊥
append-nonempty [] x h = cc
append-nonempty (y ∷ ys) x h = cc

collect-Adds :
    (m : Outcome Invalid (Unit {0})) (n : Node) (fs : Flows) (e : Entry) (s : Adding)
    → Adds (size (flow n fs)) s (collect m fs e s)
unfolding collect size
collect-Adds (throws x) n fs e s = (λ h. absurd (append-nonempty s.failures x h), omega arith)
collect-Adds (returns u) n fs e s = (
  λ h. (
    h,
    omega (
      arith,
      length-append s.entries (e ∷ []),
      waiting-append s.tasks (tasks_of fs e),
      waiting-tasks_of fs e,
    ),
  ),
  omega (arith, time_left-append s.tasks (tasks_of fs e), time_left-tasks_of fs e),
)

add_node-Adds :
    (c : Context) (n : Node) (fs : Flows) (l : Link) (s : Adding)
    → Adds (size (flow n fs)) s (add_node c n fs l s)
unfolding add_node
add_node-Adds c n fs l s = collect-Adds _ n fs _ s

Adds-after : (m n : ℕ) (s s' s'' : Adding) → Adds m s s' → Adds n s' s'' → Adds (m + n) s s''
Adds-after m n s s' s'' h g = (
  λ e. let (e', q) = g.0 e in let (e'', p) = h.0 e' in (e'', omega arith),
  omega (arith, h.1, g.1),
)

add_children-Adds :
    (c : Context) (fs : Flows) (l : Link) (s : Adding)
    → Adds (size_all fs) s (add_children c fs l s)
unfolding add_children size
add_children-Adds c none_left l s = (λ h. (h, omega arith), omega arith)
add_children-Adds c (followed (flow n fs) rest) l s =
    let s' = add_node c n fs l s in
    Adds-after _ _ s s' (add_children c rest l s') (add_node-Adds c n fs l s)
      (add_children-Adds c rest l s')

pub add_nodes-Adds :
    (c : Context) (fs : Flows) (s : Adding) → Adds (size_all fs) s (add_nodes c fs s)
unfolding add_nodes size
add_nodes-Adds c none_left s = (λ h. (h, omega arith), omega arith)
add_nodes-Adds c (followed (flow n fs) rest) s =
    let s' = add_node c n fs (link_of_root n) s in
    Adds-after _ _ s s' (add_nodes c rest s') (add_node-Adds c n fs (link_of_root n) s)
      (add_nodes-Adds c rest s')

-- A continuation taken out.
without-waiting :
    (i : ℕ) (ts : List Task) (t : Task)
    → get_elem? ts i ≡ some t
    → (waiting ts ≡ size_all t.nodes + waiting (without i ts))
      × (time_left ts ≡ suc (size_all t.nodes) + time_left (without i ts))
without-waiting i [] t h = absurd (cc)
without-waiting zero (u ∷ ts) t h = (cc, cc)
without-waiting (suc i) (u ∷ ts) t h =
    let (e, f) = without-waiting i ts t h in (omega arith, omega arith)

abbrev taken_out : ℕ → Adding → Adding
taken_out i s = record s { tasks = without i s.tasks }

resume-keeps :
    (c : Context) (i : ℕ) (s : Adding) (o : Option Task)
    → get_elem? s.tasks i ≡ o
    → ((resume c i s).failures ≡ []
        → (s.failures ≡ [])
          × (length (resume c i s).entries + waiting (resume c i s).tasks
              ≡ length s.entries + waiting s.tasks))
unfolding resume
resume-keeps c i s none h = rw (h, resume) (λ e. (e, refl))
resume-keeps c i s (some t) h =
    rw (h, resume)
      (λ e.
        let (e', p) = (add_children-Adds c t.nodes t.link (taken_out i s)).0 e in
        (e', omega (arith, (without-waiting i s.tasks t h).0)))

-- A continuation that runs leaves less time: every order of them comes to an end.
pub resume_comes_to_an_end :
    (c : Context) (i : ℕ) (s : Adding) (t : Task)
    → get_elem? s.tasks i ≡ some t
    → time_left (resume c i s).tasks < time_left s.tasks
unfolding resume
resume_comes_to_an_end c i s t h =
    rw (h, resume, time_left)
      (omega (
        arith,
        (add_children-Adds c t.nodes t.link (taken_out i s)).1,
        (without-waiting i s.tasks t h).1,
      ))

pub Runs-keeps :
    (c : Context) (s s' : Adding)
    → Runs c s s'
    → s'.failures ≡ []
    → (s.failures ≡ [])
      × (length s'.entries + waiting s'.tasks ≡ length s.entries + waiting s.tasks)
Runs-keeps c s _ (here _) e = (e, refl)
Runs-keeps c s _ (resumes i _ s' r) e =
    let (e', p) = resume-keeps c i s' _ refl e in
    let (e'', q) = Runs-keeps c s s' r e' in (e'', omega arith)

-- While no options have been refused, the entries collected and the jobs that continuations
-- still hold are together all the jobs of the flows, in whatever order the continuations run.
pub every_job_once :
    (c : Context) (flows : Flows) (s : Adding)
    → Runs c (add_nodes c flows empty) s
    → s.failures ≡ []
    → length s.entries + waiting s.tasks ≡ size_all flows
every_job_once c flows s r e =
    let (e', p) = Runs-keeps c _ s r e in
    let (e'', q) = (add_nodes-Adds c flows empty).0 e' in omega arith

Runs-first : (c : Context) (i : ℕ) (s t s' : Adding) → resume c i s ≡ t → Runs c t s' → Runs c s s'
Runs-first c i s t _ e (here _) = subst (Runs c s) e (resumes i s s (here s))
Runs-first c i s t _ e (resumes j _ s' r) = resumes j s s' (Runs-first c i s t s' e r)

no_tasks : (ts : List Task) → time_left ts ≤ 0 → ts ≡ []
no_tasks [] h = refl
no_tasks (t ∷ ts) h = absurd (omega arith)

less_time :
    (fuel : ℕ) (c : Context) (s : Adding) (ts : List Task)
    → s.tasks ≡ ts
    → time_left s.tasks ≤ suc fuel
    → time_left (resume c 0 s).tasks ≤ fuel
unfolding resume
less_time fuel c s [] e h = rw (ap (λ us. get_elem? us 0) e, resume) (omega (arith, ap time_left e))
less_time fuel c s (t ∷ ts) e h =
    omega (arith, resume_comes_to_an_end c 0 s t (ap (λ us. get_elem? us 0) e))

pub run_all-ends :
    (fuel : ℕ) (c : Context) (s : Adding)
    → time_left s.tasks ≤ fuel
    → Runs c s (run_all fuel c s) × ((run_all fuel c s).tasks ≡ [])
unfolding run_all
run_all-ends zero c s h = (here s, no_tasks s.tasks h)
run_all-ends (suc fuel) c s h =
    let (r, e) = run_all-ends fuel c (resume c 0 s) (less_time fuel c s _ refl h) in
    (Runs-first c 0 s _ _ refl r, e)

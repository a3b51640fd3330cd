-- ===== src/FlowProducer/Adding/Tallied.antt =====
-- Which entries the calls of `addNode` of src/classes/flow-producer.ts collect, in whatever order
-- the continuations run: for any mark, as many as jobs of the flows have it.
use bullmq.Shared.{
  ℕ, zero, suc, ◌+◌, ◌≡◌, refl, ap, Bool, true, false, List, [], ◌∷◌, ◌++◌, Option, none, some,
  String, length, get_elem?, Outcome, returns, throws, arith,
}
use bullmq.Job.{JobsOptions}
use bullmq.Job.Options.{Invalid}
use bullmq.FlowProducer.{Node, FlowJob, Flows, flow, none_left, followed, has_some, size_all}
use bullmq.FlowProducer.Adding.{
  Context, Link, Entry, Task, Adding, empty, Runs, here, resumes, without, tasks_of, collect,
  or_text, entry_of, add_node, link_of_root, add_children, add_nodes, resume, run_all,
}
use bullmq.FlowProducer.Adding.Collected.{
  append-nonempty, waiting, every_job_once, run_all-ends, add_nodes-Adds,
}

-- What an entry has of the job that the caller gave: its name, its queue with the prefix, its
-- options but for the parent, and whether it has children.
pub record Mark : Type 0 where
  pub name : String
  pub prefix : String
  pub queue_name : String
  pub opts : JobsOptions
  pub has_children : Bool

abbrev pub mark_of : Entry → Mark
mark_of e = record {
  name = e.job.name;
  prefix = e.prefix;
  queue_name = e.queue_name;
  opts = record e.job.opts { parent = none };
  has_children = e.add_to_waiting_children;
}

module _ (c : Context) (p : Mark → Bool) where
  abbrev pub one_if : Bool → ℕ
  one_if true = 1
  one_if false = 0

  abbrev pub mark_of_node : Node → Flows → Mark
  mark_of_node n fs = record {
    name = n.name;
    prefix = or_text n.prefix c.prefix;
    queue_name = n.queue_name;
    opts = record n.opts { parent = none };
    has_children = has_some fs;
  }

  -- The jobs of trees that have the mark.
  unfoldable mutual
    pub tally : FlowJob → ℕ
    tally (flow n fs) = one_if (p (mark_of_node n fs)) + tally_all fs

    pub tally_all : Flows → ℕ
    tally_all none_left = 0
    tally_all (followed f fs) = tally f + tally_all fs

  abbrev pub tally_entries : List Entry → ℕ
  tally_entries [] = 0
  tally_entries (e ∷ es) = one_if (p (mark_of e)) + tally_entries es

  abbrev tally_tasks : List Task → ℕ
  tally_tasks [] = 0
  tally_tasks (t ∷ ts) = tally_all t.nodes + tally_tasks ts

  tally_entries-append :
      (es ds : List Entry) → tally_entries (es ++ ds) ≡ tally_entries es + tally_entries ds
  tally_entries-append [] ds = omega arith
  tally_entries-append (e ∷ es) ds = omega (arith, tally_entries-append es ds)

  tally_tasks-append :
      (ts us : List Task) → tally_tasks (ts ++ us) ≡ tally_tasks ts + tally_tasks us
  tally_tasks-append [] us = omega arith
  tally_tasks-append (t ∷ ts) us = omega (arith, tally_tasks-append ts us)

  tally_tasks-tasks_of : (fs : Flows) (e : Entry) → tally_tasks (tasks_of fs e) ≡ tally_all fs
  unfolding tasks_of tally
  tally_tasks-tasks_of none_left e = refl
  tally_tasks-tasks_of (followed f fs) e = omega arith

  -- What is collected and what waits.
  abbrev total : Adding → ℕ
  total s = tally_entries s.entries + tally_tasks s.tasks

  -- `s'` has come from `s` by calls that have `n` jobs with the mark to add.
  abbrev Tallies : ℕ → Adding → Adding → Type 0
  Tallies n s s' = s'.failures ≡ [] → (s.failures ≡ []) × (total s' ≡ total s + n)

  Tallies-after :
      (m n : ℕ) (s s' s'' : Adding) → Tallies m s s' → Tallies n s' s'' → Tallies (m + n) s s''
  Tallies-after m n s s' s'' h g e = let (e', q) = g e in let (e'', r) = h e' in (e'', omega arith)

  collect-Tallies :
      (m : Outcome Invalid (Unit {0})) (n : ℕ) (fs : Flows) (e : Entry) (s : Adding)
      → one_if (p (mark_of e)) ≡ n
      → Tallies (n + tally_all fs) s (collect m fs e s)
  unfolding collect
  collect-Tallies (throws x) n fs e s same h = absurd (append-nonempty s.failures x h)
  collect-Tallies (returns u) n fs e s same h = (
    h,
    omega (
      arith,
      tally_entries-append s.entries (e ∷ []),
      tally_tasks-append s.tasks (tasks_of fs e),
      tally_tasks-tasks_of fs e,
    ),
  )

  add_node-Tallies :
      (n : Node) (fs : Flows) (l : Link) (s : Adding)
      → Tallies (tally (flow n fs)) s (add_node c n fs l s)
  unfolding add_node entry_of tally bullmq.Job.Options.new
  add_node-Tallies n fs l s = collect-Tallies _ (one_if (p (mark_of_node n fs))) fs _ s refl

  add_children-Tallies :
      (fs : Flows) (l : Link) (s : Adding) → Tallies (tally_all fs) s (add_children c fs l s)
  unfolding add_children tally
  add_children-Tallies none_left l s = λ h. (h, omega arith)
  add_children-Tallies (followed (flow n fs) rest) l s =
      let s' = add_node c n fs l s in
      Tallies-after _ _ s s' (add_children c rest l s') (add_node-Tallies n fs l s)
        (add_children-Tallies rest l s')

  add_nodes-Tallies : (fs : Flows) (s : Adding) → Tallies (tally_all fs) s (add_nodes c fs s)
  unfolding add_nodes tally
  add_nodes-Tallies none_left s = λ h. (h, omega arith)
  add_nodes-Tallies (followed (flow n fs) rest) s =
      let s' = add_node c n fs (link_of_root n) s in
      Tallies-after _ _ s s' (add_nodes c rest s') (add_node-Tallies n fs (link_of_root n) s)
        (add_nodes-Tallies rest s')

  tally_tasks-without :
      (i : ℕ) (ts : List Task) (t : Task)
      → get_elem? ts i ≡ some t
      → tally_tasks ts ≡ tally_all t.nodes + tally_tasks (without i ts)
  tally_tasks-without i [] t h = absurd (cc)
  tally_tasks-without zero (u ∷ ts) t h = cc
  tally_tasks-without (suc i) (u ∷ ts) t h = omega (arith, tally_tasks-without i ts t h)

  resume-Tallies :
      (i : ℕ) (s : Adding) (o : Option Task) → get_elem? s.tasks i ≡ o → Tallies 0 s (resume c i s)
  unfolding resume
  resume-Tallies i s none h = rw (h, resume) (λ e. (e, omega arith))
  resume-Tallies i s (some t) h =
      rw (h, resume)
        (λ e.
          let (e', q) =
            add_children-Tallies t.nodes t.link (record s { tasks = without i s.tasks }) e in
          (e', omega (arith, tally_tasks-without i s.tasks t h)))

  Runs-Tallies : (s s' : Adding) → Runs c s s' → Tallies 0 s s'
  Runs-Tallies s _ (here _) = λ e. (e, omega arith)
  Runs-Tallies s _ (resumes i _ s' r) =
      Tallies-after 0 0 s s' (resume c i s') (Runs-Tallies s s' r) (resume-Tallies i s' _ refl)

  every_mark :
      (flows : Flows) (s : Adding)
      → Runs c (add_nodes c flows empty) s
      → s.tasks ≡ []
      → s.failures ≡ []
      → tally_entries s.entries ≡ tally_all flows
  every_mark flows s r done e =
      let (e', q) = Runs-Tallies _ s r e in
      let (e'', t) = add_nodes-Tallies flows empty e' in omega (arith, ap tally_tasks done)

-- Taken in the order in which they come, as many continuations as the flows have jobs are all there
-- are. If no options have been refused, there are then as many entries as jobs of the flows, and
-- for any property of the name, the prefix, the queue, the options but for the parent and of having
-- children, as many entries as jobs of the flows have it.
pub flows_are_collected :
    (c : Context) (flows : Flows)
    → let s = run_all (size_all flows) c (add_nodes c flows empty) in
      Runs c (add_nodes c flows empty) s
      × (s.tasks ≡ [])
      × (s.failures ≡ []
          → (length s.entries ≡ size_all flows)
            × ((p : Mark → Bool) → tally_entries c p s.entries ≡ tally_all c p flows))
flows_are_collected c flows =
    let s = run_all (size_all flows) c (add_nodes c flows empty) in
    let (r, e) =
      run_all-ends (size_all flows) c (add_nodes c flows empty)
        (omega (arith, (add_nodes-Adds c flows empty).1)) in
    (
      r,
      e,
      λ h. (
        omega (arith, every_job_once c flows s r h, ap waiting e),
        λ p. every_mark c p flows s r e h,
      ),
    )

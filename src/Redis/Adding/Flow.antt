-- ===== src/Redis/Adding/Flow.antt =====
-- The calls that src/classes/redis-queue-backend.ts makes for a flow of
-- src/classes/flow-producer.ts.
use bullmq.Shared.{
  ℕ, zero, suc, ◌≤◌, ◌<◌, ◌≡◌, ◌≢◌, Bool-cases, refl, sym, ap, ◌∙◌, subst, true, List, [], ◌∷◌,
  ◌++◌, some, String, ◌<>◌, length, get_elem?, get, put, arith, ◌⊎◌, inl, inr, ◌===◌, ===_iff,
}
use text.Mathlib.TextLemmas.{append_assoc as text_assoc, append-eq-nil_iff, cons≢nil}
use bullmq.Job.Options.{get_parent_key}
use bullmq.Errors.{get_keys, to_key, get_queue_qualified_name}
use bullmq.FlowProducer.{Flows}
use bullmq.FlowProducer.Adding.{Context, Entry, Adding, Runs, empty, add_nodes, link_to}
use bullmq.FlowProducer.Adding.Order.{
  IsOrdered, starts, next, Follows, get_elem?-append, children_after_parents,
}
use bullmq.Redis.Adding.{add_parent_job, flow_call, command_for, or_null}

-- An element of a list with one more at its end.
at_end :
    {A : Type 0} (xs : List A) (x : A) (i : ℕ) (y : A)
    → get_elem? (xs ++ x ∷ []) i ≡ some y
    → ((i ≡ length xs) × (y ≡ x)) ⊎ ((i < length xs) × (get_elem? xs i ≡ some y))
at_end [] x zero y h = inl (refl, cc)
at_end [] x (suc i) y h = absurd (cc)
at_end (z ∷ xs) x zero y h = inr (omega arith, h)
at_end (z ∷ xs) x (suc i) y h = elim (at_end xs x i y h) [
  | inl (e, f) ↦ inl (omega arith, f)
  | inr (e, f) ↦ inr (omega arith, f)
]

get_elem?-length :
    {A : Type 0} (xs : List A) (i : ℕ) (x : A) → get_elem? xs i ≡ some x → i < length xs
get_elem?-length [] i x h = absurd (cc)
get_elem?-length (y ∷ xs) zero x h = omega arith
get_elem?-length (y ∷ xs) (suc i) x h = omega (arith, get_elem?-length xs i x h)

-- Which entry it is that one follows.
IsOrdered-at :
    (roots es : List Entry) (i : ℕ) (e : Entry)
    → IsOrdered roots es
    → length roots ≤ i
    → get_elem? es i ≡ some e
    → (before : List Entry) × Follows before e
      × ((j : ℕ) (f : Entry) → get_elem? before j ≡ some f → (j < i) × (get_elem? es j ≡ some f))
IsOrdered-at roots _ i e starts l h = absurd (omega (arith, get_elem?-length roots i e h))
IsOrdered-at roots _ i e (next es f o p) l h = elim (at_end es f i e h) [
  | inl (k, m) ↦ (
    es,
    subst (Follows es) (sym m) p,
    λ j g b. (omega (arith, get_elem?-length es j g b), get_elem?-append es (f ∷ []) j g b),
  )
  | inr (k, m) ↦
      let (before, q, r) = IsOrdered-at roots es i e o l m in
      (before, q, λ j g b. let (s, t) = r j g b in (s, get_elem?-append es (f ∷ []) j g t))
]

get_keys-base :
    (prefix name : String) → get "" (get_keys prefix name) ≡ some (to_key prefix name "")
unfolding get_keys get put to_key
get_keys-base prefix name = refl

-- The key of a job under a base key.
base_key : (prefix name id : String) → to_key prefix name "" <> id ≡ to_key prefix name id
unfolding to_key
base_key prefix name id = text_assoc (get_queue_qualified_name prefix name) ":" id

colon_is_some : (b : String) → ":" <> b ≢ ""
colon_is_some b h = cons≢nil ((append-eq-nil_iff).0 h).0

not_null : (a b : String) → or_null (some (a <> ":" <> b)) ≡ some (a <> ":" <> b)
not_null a b = elim (Bool-cases ((a <> ":" <> b) === "")) [
  | inl e ↦ absurd (colon_is_some b ((append-eq-nil_iff).0 ((===_iff (a <> ":" <> b) "").0 e)).1)
  | inr e ↦ rw e refl
]

linked :
    (e f : Entry)
    → f.add_to_waiting_children ≡ true
    → e.job.parent_key ≡ get_parent_key (link_to f).parent_opts
    → e.parent_dependencies_key ≡ (link_to f).dependencies_key
    → let base = to_key f.prefix f.queue_name "" in
      ((flow_call f).command ≡ add_parent_job)
      × ((flow_call e).args.parent_key ≡ some (base <> f.job_id))
      × ((flow_call e).args.parent_dependencies_key ≡ some (base <> f.job_id <> ":dependencies"))
unfolding flow_call link_to get_parent_key to_key
linked e f w k m =
    let key = to_key f.prefix f.queue_name f.job_id in
    let b : to_key f.prefix f.queue_name "" <> f.job_id ≡ key =
      base_key f.prefix f.queue_name f.job_id in
    (
      rw (w, command_for) refl,
      ap or_null k
          ∙ (not_null (get_queue_qualified_name f.prefix f.queue_name) f.job_id ∙ ap some (sym b)),
      ap or_null m
          ∙ (not_null key "dependencies"
              ∙ ap some (
                  ap (λ t. t <> ":dependencies") (sym b)
                  ∙ text_assoc (to_key f.prefix f.queue_name "") f.job_id ":dependencies")),
    )

-- In the transaction of a flow, whatever order the continuations ran in, the call for a job below
-- the roots comes after one of `addParentJob`, for its parent, and names the key under which that
-- call puts the parent, and that key's dependencies.
pub flow_calls_link :
    (c : Context) (flows : Flows) (s : Adding) (i : ℕ) (e : Entry)
    → Runs c (add_nodes c flows empty) s
    → length (add_nodes c flows empty).entries ≤ i
    → get_elem? s.entries i ≡ some e
    → (j : ℕ) × (f : Entry) × (base : String) × (j < i)
      × (get_elem? s.entries j ≡ some f)
      × ((flow_call f).command ≡ add_parent_job)
      × ((flow_call f).args.base_key ≡ some base)
      × ((flow_call e).args.parent_key ≡ some (base <> (flow_call f).args.job_id))
      × ((flow_call e).args.parent_dependencies_key
          ≡ some (base <> (flow_call f).args.job_id <> ":dependencies"))
unfolding flow_call
flow_calls_link c flows s i e r l h =
    let (before, p, q) = IsOrdered-at _ s.entries i e (children_after_parents c flows s r) l h in
    let (j, f, a, w, b, k, d, m) = p in
    let (lt, at) = q j f a in
    let (x, y, z) = linked e f w k m in
    (j, f, to_key f.prefix f.queue_name "", lt, at, x, get_keys-base f.prefix f.queue_name, y, z)

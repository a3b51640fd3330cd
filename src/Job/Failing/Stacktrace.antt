-- ===== src/Job/Failing/Stacktrace.antt =====
-- The stack traces that a job of src/classes/job.ts keeps.
use bullmq.Shared.{
  ℕ, zero, suc, ◌-◌, ◌≤◌, ◌===◌, if◌then◌else◌, List, [], ◌∷◌, ◌++◌, append_assoc, append-nil,
  Option, none, some, String, length, drop, drop-append, drop-drop, drop-nil, drop_all, length-drop,
  length-append, ◌≡◌, refl, sym, ◌∙◌, ap, arith, Bool-cases, inl, inr,
}
use bullmq.Job.{Job}
use bullmq.Job.Failing.{JobError, or_empty, last_n, limit_trace, update_stacktrace}

-- The stack of an error, as a list of at most one entry.
abbrev pub given : Option String → List String
given none = []
given (some s) = if s === "" then [] else s ∷ []

abbrev pub stacks : List JobError → List String
stacks [] = []
stacks (e ∷ es) = given e.stack ++ stacks es

abbrev pub update_all : List JobError → Job → Job
update_all [] job = job
update_all (e ∷ es) job = update_all es (update_stacktrace e job)

last_n-append :
    (n : ℕ) (xs : List String) (s : String)
    → last_n n (last_n n xs ++ s ∷ []) ≡ last_n n (xs ++ s ∷ [])
unfolding last_n
last_n-append n xs s =
    let k = length xs - n in
    let a = length (drop k xs ++ s ∷ []) - n in
    ap (drop a) (sym (drop-append k xs (s ∷ []) (omega arith)))
    ∙ drop-drop a k (xs ++ s ∷ [])
    ∙ ap (λ j. drop j (xs ++ s ∷ []))
        (omega
          (arith, length-append (drop k xs) (s ∷ []), length-append xs (s ∷ []), length-drop k xs))

limit_trace_lem : (n : ℕ) (l : List String) → limit_trace (some n) l ≡ last_n n l
unfolding limit_trace last_n
limit_trace_lem zero l = sym (ap (λ k. drop k l) {x = length l - 0} (omega arith) ∙ drop_all l)
limit_trace_lem (suc n) l = refl

length-last_n : (n : ℕ) (xs : List String) → length (last_n n xs) ≤ n
unfolding last_n
length-last_n n xs = omega (arith, length-drop (length xs - n) xs)

last_n-nil : (n : ℕ) → last_n n [] ≡ []
unfolding last_n
last_n-nil n = drop-nil (0 - n)

module _ (n : ℕ) where
  update-last_n :
      (e : JobError) (job : Job) (xs : List String)
      → job.opts.stack_trace_limit ≡ some n
      → or_empty job.stacktrace ≡ last_n n xs
      → or_empty (update_stacktrace e job).stacktrace ≡ last_n n (xs ++ given e.stack)
  unfolding update_stacktrace
  update-last_n e job xs limit h = go e.stack refl
    where
      go :
          (o : Option String)
          → e.stack ≡ o
          → or_empty (update_stacktrace e job).stacktrace ≡ last_n n (xs ++ given o)
      go none is = rw (is, update_stacktrace, append-nil) h
      go (some s) is = elim (Bool-cases (s === "")) [
        | inl empty ↦ rw (is, update_stacktrace, empty, append-nil) h
        | inr more ↦
            rw (is, update_stacktrace, more, limit, limit_trace_lem, h) (last_n-append n xs s)
      ]

  update_all-last_n :
      (es : List JobError) (job : Job) (xs : List String)
      → job.opts.stack_trace_limit ≡ some n
      → or_empty job.stacktrace ≡ last_n n xs
      → or_empty (update_all es job).stacktrace ≡ last_n n (xs ++ stacks es)
  unfolding update_stacktrace
  update_all-last_n [] job xs limit h = rw append-nil h
  update_all-last_n (e ∷ es) job xs limit h = rw (← append_assoc) (
      update_all-last_n es (update_stacktrace e job) (xs ++ given e.stack) limit
        (update-last_n e job xs limit h))

  -- A job whose options limit its traces to `n`, and which has none yet, keeps the last `n` of the
  -- stacks of its errors, in the order of the errors, after any row of failures.
  pub stacktrace_keeps_last :
      (es : List JobError) (job : Job)
      → job.opts.stack_trace_limit ≡ some n
      → job.stacktrace ≡ none
      → (or_empty (update_all es job).stacktrace ≡ last_n n (stacks es))
        × (length (or_empty (update_all es job).stacktrace) ≤ n)
  stacktrace_keeps_last es job limit fresh =
      let kept = update_all-last_n es job [] limit (rw fresh (sym (last_n-nil n))) in
      (kept, rw kept (length-last_n n (stacks es)))

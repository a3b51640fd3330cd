-- ===== src/JobScheduler/Upserting/Future.antt =====
-- Which options `upsertJobScheduler` of src/classes/job-scheduler.ts refuses, and what it asks of
-- the backend.
use bullmq.Shared.{
  ℕ, suc, ◌+◌, ◌-◌, ◌≤◌, ◌≡◌, refl, sym, ap, subst, ◌∙◌, ltb, if◌then◌else◌, Bool, true, false, not,
  ◌&&◌, ◌||◌, Option, none, some, String, is_given, is_some, max, Outcome, returns, throws,
  throw_if, ◌>>◌, ◌>>=◌, ◌↔◌, ◌⊎◌, inl, inr, arith, >>-returns, >>=-returns,
}
use bullmq.Job.{JobsOptions}
use bullmq.JobScheduler.{
  RepeatOptions, ScheduleError, both_defined, neither_defined, immediately_with_start_date,
  debounce_removed, is_set, or_zero,
}
use bullmq.JobScheduler.Upserting.{
  Request, Runtime, check_repeat, iteration_count, is_over, next_millis_of, request_of, clamp,
  get_next_job_opts, upsert_job_scheduler,
}

-- Either a pattern or an interval, not both; no start date with `immediately`.
abbrev pub IsRepeatable : RepeatOptions → Type 0
IsRepeatable o =
    (((is_given o.pattern ≡ true) × (is_set o.every ≡ false))
      ⊎ ((is_given o.pattern ≡ false) × (is_set o.every ≡ true)))
    × ((o.immediately ≡ false) ⊎ (is_some o.start_date ≡ false))

checks_iff :
    (p e i s d : Bool)
    → ((throw_if (p && e) both_defined
          >> (throw_if (not p && not e) neither_defined
              >> (throw_if (i && s) immediately_with_start_date >> throw_if d debounce_removed)))
        ≡ returns tt)
      ↔ (((((p ≡ true) × (e ≡ false)) ⊎ ((p ≡ false) × (e ≡ true))) × ((i ≡ false) ⊎ (s ≡ false)))
          × (d ≡ false))
checks_iff true true i s d = (λ h. absurd (cc), λ h. absurd (ground arith))
checks_iff false false i s d = (λ h. absurd (cc), λ h. absurd (ground arith))
checks_iff p e true true d = (λ h. absurd (ground arith), λ h. absurd (ground arith))
checks_iff p e i s true = (λ h. absurd (ground arith), λ h. absurd (ground arith))
checks_iff true false false s false = (λ h. ((inl (refl, refl), inl refl), refl), λ h. refl)
checks_iff true false true false false = (λ h. ((inl (refl, refl), inr refl), refl), λ h. refl)
checks_iff false true false s false = (λ h. ((inr (refl, refl), inl refl), refl), λ h. refl)
checks_iff false true true false false = (λ h. ((inr (refl, refl), inr refl), refl), λ h. refl)

-- The options pass the checks exactly when they have a pattern or an interval but not both, no
-- start date together with `immediately`, and no `debounce`.
pub check_repeat-IsRepeatable :
    (o : RepeatOptions) (debounce : Bool)
    → (check_repeat o debounce ≡ returns tt) ↔ (IsRepeatable o × (debounce ≡ false))
unfolding check_repeat
check_repeat-IsRepeatable o debounce =
    checks_iff (is_given o.pattern) (is_set o.every) o.immediately (is_some o.start_date) debounce

-- The number of this iteration: one more than those so far, where none are 0.
abbrev pub next_count : RepeatOptions → ℕ
next_count o = suc (or_zero o.count)

iteration_count-next : (o : RepeatOptions) → iteration_count o ≡ next_count o
iteration_count-next o = go o.count
  where
    go : (c : Option ℕ) → (if is_set c then or_zero c + 1 else 1) ≡ suc (or_zero c)
    go none = refl
    go (some n) = ground arith

-- The iterations are within the limit, and the end date is not passed.
abbrev pub IsWithin : RepeatOptions → ℕ → Type 0
IsWithin o now =
    ((limit : ℕ) → o.limit ≡ some limit → next_count o ≤ limit)
    × ((end_date : ℕ) → o.end_date ≡ some end_date → now ≤ end_date)

not_over-IsWithin : (o : RepeatOptions) (now : ℕ) → is_over o now ≡ false → IsWithin o now
not_over-IsWithin o now h = (
  λ limit e.
      let within : iteration_count o ≤ limit = ground arith in
      subst (λ n. n ≤ limit) (iteration_count-next o) within,
  λ end_date e. ground arith,
)

-- The next time of a pattern.
AfterNow : ℕ → Option ℕ → Type 0
AfterNow now next = (n : ℕ) × (next ≡ some n) × (now ≤ n) × (clamp now next ≡ some n)

clamp-AfterNow : (now : ℕ) (m : Option ℕ) → is_set (clamp now m) ≡ true → AfterNow now (clamp now m)
unfolding AfterNow
clamp-AfterNow now none h = absurd (cc)
clamp-AfterNow now (some k) h = ((if ltb k now then now else k), refl, ground arith, ground arith)

next_millis_of-AfterNow :
    (strategy : ℕ → RepeatOptions → Outcome ScheduleError (Option ℕ)) (now : ℕ) (o : RepeatOptions)
    (next : Option ℕ)
    → next_millis_of strategy now o ≡ returns next
    → is_given o.pattern ≡ true
    → is_set next ≡ true
    → AfterNow now next
unfolding next_millis_of
next_millis_of-AfterNow strategy now o next h p g =
    let (m, e, f) = >>=-returns (strategy now o) (λ m. returns (clamp now m)) next (ground arith) in
    let c : clamp now m ≡ next = cc in
    subst (AfterNow now) c (clamp-AfterNow now m (ap is_set c ∙ g))

-- What a request says of the next time.
request_of-next :
    (r : Runtime) (now : ℕ) (override : Bool) (id name : String) (o : RepeatOptions)
    (opts : JobsOptions) (producer_id : Option String) (next : Option ℕ)
    → is_set o.every ≡ false
    → AfterNow now next
    → let q = request_of r now override id name o opts producer_id next in
      (n : ℕ) × (q.next_millis ≡ some n)
      × (now ≤ n)
      × (q.merged.prev_millis ≡ some n)
      × (q.merged.delay ≡ some (n - r.now_later))
unfolding request_of get_next_job_opts AfterNow
request_of-next r now override id name o opts producer_id next e (n, a, b, c) =
    (n, ground arith, b, a, rw a (ground arith))

first_returns :
    {B : Type 0} (m : Outcome ScheduleError (Unit {0})) (k : Outcome ScheduleError B) (b : B)
    → (m >> k) ≡ returns b
    → m ≡ returns tt
first_returns (returns tt) k b h = refl
first_returns (throws e) k b h = absurd (cc)

unless_over :
    {B : Type 0} (over : Bool) (m : Outcome ScheduleError (Option B)) (q : B)
    → (if over then returns none else m) ≡ returns (some q)
    → (over ≡ false) × (m ≡ returns (some q))
unless_over true m q h = absurd (cc)
unless_over false m q h = (refl, h)

only_if :
    {B : Type 0} (asks : Bool) (x q : B)
    → ◌≡◌ {A = Outcome ScheduleError (Option B)}
        (returns (if asks then some x else none))
        (returns (some q))
    → (asks ≡ true) × (x ≡ q)
only_if true x q h = (refl, cc)
only_if false x q h = absurd (cc)

-- What a call that asks something has come through.
asked :
    (r : Runtime) (strategy : ℕ → RepeatOptions → Outcome ScheduleError (Option ℕ)) (id : String)
    (o : RepeatOptions) (name : String) (opts : JobsOptions) (prev_millis : Option ℕ)
    (override : Bool) (producer_id : Option String) (q : Request)
    → let now = max (or_zero prev_millis) r.now in
      upsert_job_scheduler r strategy id o name opts prev_millis override producer_id
        ≡ returns (some q)
      → (check_repeat o opts.debounce ≡ returns tt)
        × (is_over o r.now ≡ false)
        × ((next : Option ℕ) × (next_millis_of strategy now o ≡ returns next)
            × ((is_set next || is_set o.every) ≡ true)
            × (request_of r now override id name o opts producer_id next ≡ q))
unfolding upsert_job_scheduler
asked r strategy id o name opts prev_millis override producer_id q h =
    let now = max (or_zero prev_millis) r.now in
    let ask : Option ℕ → Outcome ScheduleError (Option Request) = λ next. returns (
      if is_set next || is_set o.every
      then some (request_of r now override id name o opts producer_id next)
      else none) in
    let body =
      >>-returns (check_repeat o opts.debounce)
        (if is_over o r.now then returns none else next_millis_of strategy now o >>= ask) (some q)
        h in
    let (e, m) = unless_over (is_over o r.now) _ q body in
    let (next, f, g) = >>=-returns (next_millis_of strategy now o) ask (some q) m in
    let (k, l) = only_if (is_set next || is_set o.every) _ q g in
    (first_returns _ _ (some q) h, e, (next, f, k, l))

pattern_only :
    (o : RepeatOptions) → IsRepeatable o → is_given o.pattern ≡ true → is_set o.every ≡ false
pattern_only o h p = elim h.0 [ inl a ↦ a.1 | inr b ↦ absurd (ground (arith, b.0)) ]

-- If `upsertJobScheduler` asks something of the backend, the options have a pattern or an interval
-- but not both, no start date together with `immediately` and no `debounce`; the repetition is
-- within its limit of iterations and its end date, and the next job counts one iteration more than
-- the options. With a pattern the next time is neither before now nor before the previous time, and
-- the next job waits from the later reading of the clock to it.
pub upsert_job_scheduler-IsWithin :
    (r : Runtime) (strategy : ℕ → RepeatOptions → Outcome ScheduleError (Option ℕ)) (id : String)
    (o : RepeatOptions) (name : String) (opts : JobsOptions) (prev_millis : Option ℕ)
    (override : Bool) (producer_id : Option String) (q : Request)
    → upsert_job_scheduler r strategy id o name opts prev_millis override producer_id
      ≡ returns (some q)
    → IsRepeatable o
      × (opts.debounce ≡ false)
      × IsWithin o r.now
      × (q.merged.repeat_opts.count ≡ some (next_count o))
      × (is_given o.pattern ≡ true
          → (next : ℕ) × (q.next_millis ≡ some next)
            × (r.now ≤ next)
            × (or_zero prev_millis ≤ next)
            × (q.merged.prev_millis ≡ some next)
            × (q.merged.delay ≡ some (next - r.now_later)))
unfolding upsert_job_scheduler
upsert_job_scheduler-IsWithin r strategy id o name opts prev_millis override producer_id q h =
    let now = max (or_zero prev_millis) r.now in
    let (c, e, (next, f, g, k)) =
      asked r strategy id o name opts prev_millis override producer_id q h in
    let (a, b) = (check_repeat-IsRepeatable o opts.debounce).0 c in
    (
      a,
      b,
      not_over-IsWithin o r.now e,
      ap (λ p. p.merged.repeat_opts.count) (sym k) ∙ ap some (iteration_count-next o),
      λ p.
          let no_every = pattern_only o a p in
          let (n, n_at, from, prev, delay) =
            request_of-next r now override id name o opts producer_id next no_every
              (next_millis_of-AfterNow strategy now o next f p (ground arith)) in
          (
            n,
            ap (λ t. t.next_millis) (sym k) ∙ n_at,
            omega arith,
            omega arith,
            ap (λ t. t.merged.prev_millis) (sym k) ∙ prev,
            ap (λ t. t.merged.delay) (sym k) ∙ delay,
          ),
    )

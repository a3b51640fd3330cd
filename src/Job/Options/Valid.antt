-- ===== src/Job/Options/Valid.antt =====
-- Which options `validateOptions` of src/classes/job.ts lets through.
use bullmq.Shared.{
  ℕ, suc, ◌+◌, ◌*◌, ◌%◌, ◌≤◌, ◌==◌, ===_iff, ltb, if◌then◌else◌, not, ◌&&◌, Bool, true, false, List,
  [], ◌∷◌, Option, none, some, String, length, any, codes, is_given, Fraction, Outcome, returns,
  throws, throw_if, ◌>>◌, ◌≡◌, ◌≢◌, refl, ◌⊎◌, ◌↔◌, arith,
}
use bullmq.Backoffs.{BackoffOptions}
use bullmq.Job.{JobsOptions, Job}
use bullmq.Job.Options.{
  Invalid, priority_limit, enabled_exclusive, split_colon, exceeds_size, check_id, check_priority,
  check_deduplication, check_jitter, validate_options,
}

-- How many of the four flags are set.
abbrev pub flag : Bool → ℕ
flag true = 1
flag false = 0

abbrev pub flags : JobsOptions → ℕ
flags o =
    flag o.remove_dependency_on_failure
    + flag o.fail_parent_on_failure
    + flag o.continue_parent_on_failure
    + flag o.ignore_dependency_on_failure

abbrev pub colons : List ℕ → ℕ
colons [] = 0
colons (c ∷ cs) = let rest = colons cs in if c == b':' then suc rest else rest

-- The payload is within the limit, where 0 is no limit.
abbrev pub FitsSize : Option ℕ → ℕ → Type 0
FitsSize none size = Unit
FitsSize (some limit) size = (limit ≡ 0) ⊎ (size ≤ limit)

-- A custom id is no integer, and has no colon or two.
abbrev pub IsCustomId : (String → String) → Option String → Type 0
IsCustomId print_parse none = Unit
IsCustomId print_parse (some id) =
    (id ≡ "") ⊎ ((print_parse id ≢ id) × ((colons (codes id) ≡ 0) ⊎ (colons (codes id) ≡ 2)))

-- A priority is a whole number and at most the limit. One below 0 is let through.
abbrev pub IsPriority : Option Fraction → Type 0
IsPriority none = Unit
IsPriority (some p) =
    (p.numerator ≡ 0)
    ⊎ ((p.numerator % p.denominator ≡ 0)
        × ((p.negative ≡ true) ⊎ (p.numerator ≤ priority_limit * p.denominator)))

abbrev pub IsDeduplication : Option (Option String) → Option String → Type 0
IsDeduplication none parent_key = Unit
IsDeduplication (some id) parent_key = (is_given id ≡ true) × (is_given parent_key ≡ false)

-- A jitter is between 0 and 1.
abbrev pub IsJitter : Option Fraction → Type 0
IsJitter none = Unit
IsJitter (some j) = (j.numerator ≡ 0) ⊎ ((j.negative ≡ false) × (j.numerator ≤ j.denominator))

abbrev pub HasJitter : Option BackoffOptions → Type 0
HasJitter none = Unit
HasJitter (some b) = IsJitter b.jitter

pub record IsValid (print_parse : String → String) (size : ℕ) (job : Job) : Type 0 where
  pub fits : FitsSize job.opts.size_limit size
  pub exclusive : flags job.opts ≤ 1
  pub custom_id : IsCustomId print_parse job.opts.job_id
  pub priority : IsPriority job.opts.priority
  pub deduplication : IsDeduplication job.opts.deduplication job.parent_key
  pub no_debounce : job.opts.debounce ≡ false
  pub jitter : HasJitter job.backoff

-- A check passes exactly when its predicate holds.
abbrev Passes : Outcome Invalid (Unit {0}) → Type 0 → Type 0
Passes m P = (m ≡ returns tt) ↔ P

throw_if-Passes : (b : Bool) (e : Invalid) → Passes (throw_if b e) (b ≡ false)
throw_if-Passes b e = ground arith

>>-Passes :
    (m k : Outcome Invalid (Unit {0})) {P Q : Type 0}
    → Passes m P
    → Passes k Q
    → Passes (m >> k) (P × Q)
>>-Passes (returns u) k p q = (λ e. (p.0 refl, q.0 e), λ h. q.1 h.1)
>>-Passes (throws e) k p q = (λ f. cc, λ h. cc (p.1 h.0))

size-Passes :
    (limit : Option ℕ) (size : ℕ) → (exceeds_size limit size ≡ false) ↔ FitsSize limit size
unfolding exceeds_size
size-Passes none size = ground arith
size-Passes (some l) size = ground arith

flags_lem : (o : JobsOptions) → (ltb 1 (length (enabled_exclusive o)) ≡ false) ↔ (flags o ≤ 1)
unfolding enabled_exclusive
flags_lem o = ground arith

length-split_colon : (cs : List ℕ) → length (split_colon cs) ≡ suc (colons cs)
unfolding split_colon
length-split_colon [] = refl
length-split_colon (c ∷ cs) = ground (arith, length-split_colon cs)

any-colons : (cs : List ℕ) → any (λ c. c == b':') cs ≡ ltb 0 (colons cs)
any-colons [] = refl
any-colons (c ∷ cs) = ground (arith, any-colons cs)

colons_lem :
    (cs : List ℕ)
    → ((any (λ c. c == b':') cs && not (length (split_colon cs) == 3)) ≡ false)
      ↔ ((colons cs ≡ 0) ⊎ (colons cs ≡ 2))
colons_lem cs = ground (arith, length-split_colon cs, any-colons cs)

check_id-Passes :
    (print_parse : String → String) (o : Option String)
    → Passes (check_id print_parse o) (IsCustomId print_parse o)
unfolding check_id
check_id-Passes print_parse none = (λ _. tt, λ _. refl)
check_id-Passes print_parse (some id) =
    ground (arith, ===_iff id "", ===_iff (print_parse id) id, colons_lem (codes id))

check_priority-Passes : (o : Option Fraction) → Passes (check_priority o) (IsPriority o)
unfolding check_priority
check_priority-Passes none = (λ _. tt, λ _. refl)
check_priority-Passes (some p) = ground arith

check_deduplication-Passes :
    (o : Option (Option String)) (key : Option String)
    → Passes (check_deduplication o key) (IsDeduplication o key)
unfolding check_deduplication
check_deduplication-Passes none key = (λ _. tt, λ _. refl)
check_deduplication-Passes (some id) key = ground arith

check_jitter-Passes : (o : Option BackoffOptions) → Passes (check_jitter o) (HasJitter o)
unfolding check_jitter
check_jitter-Passes none = (λ _. tt, λ _. refl)
check_jitter-Passes (some b) = ground arith

guard-Passes : (b : Bool) (e : Invalid) {P : Type 0} → ((b ≡ false) ↔ P) → Passes (throw_if b e) P
guard-Passes true e h = (λ f. cc, λ p. cc (h.1 p))
guard-Passes false e h = (λ f. h.0 refl, λ p. refl)

-- `validateOptions` lets a job through exactly when its payload is within the size limit, at most
-- one of the four options on a child's failure is set, its custom id, if there is one that is not
-- empty, is no integer and has no colon or two, its priority is absent, 0, or a whole number that
-- is at most the limit or below 0, it has no parent if it has deduplication options, which have an
-- id, the removed `debounce` option is absent, and its jitter, if any, is in [0, 1]. `print_parse`
-- stands for `${parseInt(id, 10)}`.
pub validate_options-IsValid :
    (print_parse : String → String) (size : ℕ) (job : Job)
    → (validate_options print_parse size job ≡ returns tt) ↔ IsValid print_parse size job
unfolding validate_options
validate_options-IsValid print_parse size job =
    let (to, from) = >>-Passes _ _ (guard-Passes _ _ (size-Passes job.opts.size_limit size)) (
      >>-Passes _ _ (guard-Passes _ _ (flags_lem job.opts)) (
        >>-Passes _ _ (check_id-Passes print_parse job.opts.job_id) (
          >>-Passes _ _ (check_priority-Passes job.opts.priority) (
            >>-Passes _ _ (check_deduplication-Passes job.opts.deduplication job.parent_key) (
              >>-Passes _ _ (throw_if-Passes job.opts.debounce _)
                (check_jitter-Passes job.backoff)))))) in
    (
      λ e.
          let r = to e in
          record {
            fits = r.0;
            exclusive = r.1.0;
            custom_id = r.1.1.0;
            priority = r.1.1.1.0;
            deduplication = r.1.1.1.1.0;
            no_debounce = r.1.1.1.1.1.0;
            jitter = r.1.1.1.1.1.1;
          },
      λ v. from (
        v.fits,
        (v.exclusive, (v.custom_id, (v.priority, (v.deduplication, (v.no_debounce, v.jitter))))),
      ),
    )

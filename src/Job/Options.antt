-- ===== src/Job/Options.antt =====
-- The constructor and `validateOptions` of the class `Job` of src/classes/job.ts.
pub mod Valid
use bullmq.Shared.{
  ℕ, zero, suc, ◌+◌, ◌-◌, ◌*◌, ◌%◌, ◌^◌, ◌==◌, ◌===◌, ◌<>◌, ltb, if◌then◌else◌, not, ◌&&◌, ◌||◌,
  Bool, true, false, List, [], ◌∷◌, ◌++◌, Option, none, some, String, length, any, codes, is_given,
  ℤ, pos, Fraction, exceeds, is_negative, Outcome, returns, throws, throw_if, ◌>>◌,
}
use bullmq.Backoffs.{BackoffOptions, normalize, no_jitter}
use bullmq.Job.{JobsOptions, ParentOptions, Parent, Job}

-- `getParentKey` of src/utils/index.ts.
unfoldable pub get_parent_key : Option ParentOptions → Option String
get_parent_key none = none
get_parent_key (some p) = some (p.queue <> ":" <> p.id)

unfoldable pub parent_of : JobsOptions → Option ParentOptions → Option Parent
parent_of o none = none
parent_of o (some p) = some (record {
  id = p.id;
  queue_key = p.queue;
  fpof = o.fail_parent_on_failure;
  rdof = o.remove_dependency_on_failure;
  idof = o.ignore_dependency_on_failure;
  cpof = o.continue_parent_on_failure;
})

abbrev or_default {ℓ} : {A : Type ℓ} → Option A → A → A
or_default none d = d
or_default (some a) d = a

-- `opts.timestamp ? opts.timestamp : Date.now()`.
abbrev or_now : Option ℕ → ℕ → ℕ
or_now none now = now
or_now (some t) now = if t == 0 then now else t

abbrev as_delay : Option ℕ → Option ℤ
as_delay none = none
as_delay (some d) = some (pos d)

abbrev join : Option (Option String) → Option String
join none = none
join (some o) = o

-- `new Job(queue, name, data, opts, id)` at the time `now`.
unfoldable pub new : ℕ → String → JobsOptions → Option String → Job
unfolding get_parent_key parent_of normalize
new now name opts id = record {
  id = id;
  name = name;
  opts = opts;
  attempts = or_default opts.attempts 0;
  backoff = normalize opts.backoff;
  delay = as_delay opts.delay;
  priority = or_default opts.priority no_jitter;
  timestamp = or_now opts.timestamp now;
  attempts_started = 0;
  attempts_made = 0;
  failed_reason = none;
  stacktrace = none;
  finished_on = none;
  processed_on = none;
  parent_key = get_parent_key opts.parent;
  parent = parent_of opts opts.parent;
  deduplication_id = join opts.deduplication;
  repeat_job_key = opts.repeat_job_key;
}

pub data Exclusive : Type 0 where
  remove_dependency fail_parent continue_parent ignore_dependency : Exclusive

-- The errors of `validateOptions`, in the order of its checks.
pub data Invalid : Type 0 where
  size_exceeded : Invalid
  used_together : List Exclusive → Invalid
  integer_id : Invalid
  colon_in_id : Invalid
  float_priority : Invalid
  priority_out_of_range : Invalid
  deduplication_without_id : Invalid
  deduplication_with_parent : Invalid
  debounce_removed : Invalid
  jitter_out_of_range : Invalid

abbrev pub priority_limit : ℕ
priority_limit = 2 ^ 21 - 1

abbrev listed : Bool → Exclusive → List Exclusive
listed true x = x ∷ []
listed false x = []

unfoldable pub enabled_exclusive : JobsOptions → List Exclusive
enabled_exclusive o =
    listed o.remove_dependency_on_failure remove_dependency
    ++ (listed o.fail_parent_on_failure fail_parent
        ++ (listed o.continue_parent_on_failure continue_parent
            ++ listed o.ignore_dependency_on_failure ignore_dependency))

-- `id.split(':')` on code points: the parts between the colons.
abbrev after_head : ℕ → List (List ℕ) → List (List ℕ)
after_head c [] = (c ∷ []) ∷ []
after_head c (p ∷ ps) = (c ∷ p) ∷ ps

unfoldable pub split_colon : List ℕ → List (List ℕ)
split_colon [] = [] ∷ []
split_colon (c ∷ cs) =
    let rest = split_colon cs in if c == b':' then [] ∷ rest else after_head c rest

-- `Math.trunc(p) !== p`.
unfoldable pub is_float : Fraction → Bool
is_float q = not (q.numerator % q.denominator == 0)

unfoldable pub exceeds_size : Option ℕ → ℕ → Bool
exceeds_size none size = false
exceeds_size (some limit) size = if limit == 0 then false else ltb limit size

-- `print_parse` is `${parseInt(id, 10)}`, of the runtime.
unfoldable pub check_id : (String → String) → Option String → Outcome Invalid (Unit {0})
unfolding split_colon
check_id print_parse none = returns tt
check_id print_parse (some id) = if id === "" then returns tt else do
  throw_if (print_parse id === id) integer_id
  throw_if (any (λ c. c == b':') (codes id) && not (length (split_colon (codes id)) == 3))
      colon_in_id

unfoldable pub check_priority : Option Fraction → Outcome Invalid (Unit {0})
unfolding is_float
check_priority none = returns tt
check_priority (some p) = if p.numerator == 0 then returns tt else do
  throw_if (is_float p) float_priority
  throw_if (exceeds p priority_limit) priority_out_of_range

unfoldable pub check_deduplication :
    Option (Option String) → Option String → Outcome Invalid (Unit {0})
check_deduplication none parent_key = returns tt
check_deduplication (some id) parent_key = do
  throw_if (not (is_given id)) deduplication_without_id
  throw_if (is_given parent_key) deduplication_with_parent

unfoldable pub check_jitter : Option BackoffOptions → Outcome Invalid (Unit {0})
check_jitter none = returns tt
check_jitter (some b) = elim b.jitter [
  | none ↦ returns tt
  | some j ↦ throw_if (is_negative j || exceeds j 1) jitter_out_of_range
]

-- `size` is `lengthInUtf8Bytes` of the payload's JSON text.
unfoldable pub validate_options : (String → String) → ℕ → Job → Outcome Invalid (Unit {0})
unfolding exceeds_size enabled_exclusive check_id check_priority check_deduplication check_jitter
validate_options print_parse size job = do
  throw_if (exceeds_size job.opts.size_limit size) size_exceeded
  throw_if (ltb 1 (length (enabled_exclusive job.opts)))
      (used_together (enabled_exclusive job.opts))
  check_id print_parse job.opts.job_id
  check_priority job.opts.priority
  check_deduplication job.opts.deduplication job.parent_key
  throw_if job.opts.debounce debounce_removed
  check_jitter job.backoff

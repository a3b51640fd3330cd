-- ===== src/Tests/Job.antt =====
-- Jobs of src/classes/job.ts.
use bullmq.Shared.{
  List, All, ℕ, ◌≤◌, ◌≡◌, refl, ◌↔◌, true, false, [], ◌∷◌, map, none, some, String, length, Outcome,
  returns,
}
use bullmq.Backoffs.{calculate}
use bullmq.Job.{JobsOptions, Job}
use bullmq.Job.Options.{new, validate_options}
use bullmq.Job.Options.Valid.{IsValid, validate_options-IsValid}
use bullmq.Job.Failing.{
  JobError, other, unrecoverable, Failure, Call, Reply, fail_job, retry_job, move_to_delayed,
  or_empty, last_n,
}
use bullmq.Job.Failing.Attempts.{is_final, IsOver, final_iff}
use bullmq.Job.Failing.Exhausted.{IsRetriable, fail_all, lasts, attempts_exhausted}
use bullmq.Job.Moving.{retry}
use bullmq.Job.Moving.Retried.{retry-attempts}

abbrev plain : JobsOptions
plain = record {
  attempts = some 3;
  delay = none;
  priority = none;
  timestamp = none;
  backoff = none;
  parent = none;
  fail_parent_on_failure = false;
  remove_dependency_on_failure = false;
  ignore_dependency_on_failure = false;
  continue_parent_on_failure = false;
  deduplication = none;
  debounce = false;
  job_id = none;
  repeat_job_key = none;
  size_limit = none;
  lifo = false;
  stack_trace_limit = some 1;
}

unfoldable pub sample : Job
unfolding new
sample = new 100 "mail" plain (some "j1")

abbrev negative : JobsOptions
negative = record plain {
  priority = some (record { negative = true; numerator = 5; denominator = 1 });
  job_id = some "custom";
}

-- A runtime on which no id is the text of an integer.
abbrev never : String → String
never s = "NaN"

negative_priority_passes : validate_options never 10 (new 100 "mail" negative none) ≡ returns tt
unfolding validate_options new
negative_priority_passes = refl

validate_options-IsValid_example :
    (validate_options never 10 (new 100 "mail" negative none) ≡ returns tt)
    ↔ IsValid never 10 (new 100 "mail" negative none)
validate_options-IsValid_example = validate_options-IsValid never 10 (new 100 "mail" negative none)

abbrev broken : JobError
broken = record { class = other; name = "Error"; message = "broken"; stack = some "at work" }

abbrev later : JobError
later = record { class = other; name = "Error"; message = "again"; stack = some "at rest" }

abbrev answers : Call → Outcome String (Reply ℕ)
answers c = returns (record { next = none; finished_on = some 200 })

abbrev failure : Failure ℕ
failure = record {
  error = broken;
  now = 150;
  random = record { negative = false; numerator = 0; denominator = 1 };
  token = "t";
  fetch_next = false;
  backend = answers;
}

first_failure_retries : (fail_job none failure sample).calls ≡ retry_job (some "j1") false "t" ∷ []
unfolding fail_job calculate sample
first_failure_retries = refl

final_iff_example : (is_final (retry_job (some "j1") false "t") ≡ true) ↔ IsOver none failure sample
final_iff_example =
    final_iff none failure sample (retry_job (some "j1") false "t") first_failure_retries

failure-IsRetriable : IsRetriable none none failure
unfolding calculate bullmq.Job.Failing.is_unrecoverable
failure-IsRetriable = record {
  recoverable = refl;
  goes_on = λ n job. (none, refl, refl);
  answers = λ c. (record { next = none; finished_on = some 200 }, refl);
}

attempts_exhausted_example :
    map is_final (fail_all none (failure ∷ failure ∷ failure ∷ []) sample)
    ≡ false ∷ false ∷ true ∷ []
unfolding sample
attempts_exhausted_example =
    attempts_exhausted none (failure ∷ failure ∷ failure ∷ []) sample
      (failure-IsRetriable, (failure-IsRetriable, (failure-IsRetriable, tt))) refl

-- The job after its attempts have been used up.
abbrev used_up : Job
unfolding sample
used_up = record sample { attempts_made = 3 }

retry-attempts_example :
    ((fs : List (Failure ℕ))
      → All (IsRetriable none used_up.backoff) fs
      → length fs ≡ used_up.attempts
      → map is_final (fail_all none fs (retry true false used_up (returns tt)).job) ≡ lasts none fs)
    × ((f : Failure ℕ)
        → IsRetriable none used_up.backoff f
        → used_up.attempts ≤ used_up.attempts_made
        → map is_final (fail_all none (f ∷ []) (retry false false used_up (returns tt)).job)
          ≡ true ∷ [])
retry-attempts_example = retry-attempts none used_up false

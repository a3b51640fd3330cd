-- ===== src/Job/Moving/Retried.antt =====
-- How often a job of src/classes/job.ts is attempted after `retry`.
use bullmq.Shared.{
  ℕ, ◌≤◌, ◌+◌, ltb, not, ◌≡◌, ◌∙◌, Bool, true, false, List, [], ◌∷◌, map, length, Option, returns,
  All, arith,
}
use bullmq.Job.{Job}
use bullmq.Job.Failing.{Failure, CustomStrategy}
use bullmq.Job.Failing.Attempts.{is_final}
use bullmq.Job.Failing.Exhausted.{IsRetriable, fail_all, lasts, attempts_exhausted, steps_lem}
use bullmq.Job.Moving.{retry, reset}

used_up : (made attempts : ℕ) → attempts ≤ made → not (ltb (made + 1) attempts) ≡ true
used_up made attempts h = ground arith

one : {b : Bool} → b ≡ true → b ∷ [] ≡ true ∷ []
one e = cc

-- A job that is retried once the backend has answered: with `resetAttemptsMade` its attempts, if
-- all of them fail recoverably, are as many as at first, and the last one only is final; without
-- it, when the attempts were used up, the next such failure is final.
pub retry-attempts :
    {R : Type 0} (custom : Option CustomStrategy) (job : Job) (reset_started : Bool)
    → ((fs : List (Failure R))
        → All (IsRetriable custom job.backoff) fs
        → length fs ≡ job.attempts
        → map is_final (fail_all custom fs (retry true reset_started job (returns tt)).job)
          ≡ lasts custom fs)
      × ((f : Failure R)
          → IsRetriable custom job.backoff f
          → job.attempts ≤ job.attempts_made
          → map is_final (fail_all custom (f ∷ []) (retry false reset_started job (returns tt)).job)
            ≡ true ∷ [])
unfolding retry
retry-attempts custom job reset_started = (
  λ fs hs e. attempts_exhausted custom fs (reset true reset_started job) hs (omega arith),
  λ f h l.
      let s = steps_lem custom f (reset false reset_started job) h in
      rw s.called (one (s.final ∙ used_up job.attempts_made job.attempts l)),
)

-- ===== src/Job/Failing/Attempts.antt =====
-- How often a job of src/classes/job.ts is tried, and what a failed attempt does to it.
use bullmq.Shared.{
  zero, suc, ◌+◌, ◌≤◌, ltb, if◌then◌else◌, not, ◌&&◌, Bool, true, false, [], ◌∷◌, Option, none,
  some, ℤ, pos, negsuc, is_minus_one, Outcome, returns, throws, ◌≡◌, refl, sym, ◌∙◌, ap, ◌⊎◌, inl,
  inr, ◌↔◌, arith, Bool-cases, Outcome-cases,
}
use bullmq.Backoffs.{calculate, StrategyError}
use bullmq.Job.{Job}
use bullmq.Job.Failing.{
  CustomStrategy, given_to, is_unrecoverable, should_retry_job, update_stacktrace, Call,
  move_to_failed, Failure, call_for, carry_out, fail_job,
}

abbrev pub is_final : Call → Bool
is_final (move_to_failed id reason token next) = true
is_final _ = false

-- The answer of a strategy that means "do not retry".
abbrev pub is_stop : Option ℤ → Bool
is_stop none = false
is_stop (some d) = is_minus_one d

is_stop_lem : (d : Option ℤ) → is_stop d ≡ true → d ≡ some (negsuc 0)
is_stop_lem none h = cc
is_stop_lem (some (pos n)) h = cc
is_stop_lem (some (negsuc zero)) h = refl
is_stop_lem (some (negsuc (suc n))) h = cc

stopped : (d : Option ℤ) → not (not (is_stop d)) ≡ true → is_stop d ≡ true
stopped d e = ground arith

final_same : (x c : Call) → (x ∷ []) ≡ c ∷ [] → is_final c ≡ is_final x
final_same x c e = cc

module _ {R : Type 0} (custom : Option CustomStrategy) where
  abbrev pub failing : Failure R → Job → Job
  failing f job = record job { failed_reason = some f.error.message }

  abbrev delay_for : Failure R → Job → Outcome StrategyError (Option ℤ)
  delay_for f job =
      calculate f.random job.backoff (job.attempts_made + 1) (given_to f.error job custom)

  -- The delay that the strategy gives for the next attempt.
  abbrev pub next_delay : Failure R → Job → Outcome StrategyError (Option ℤ)
  next_delay f job = delay_for f (failing f job)

  should_retry_spent :
      (f : Failure R) (job : Job)
      → ltb (job.attempts_made + 1) job.attempts && not (is_unrecoverable f.error) ≡ false
      → should_retry_job f.random custom f.error job ≡ returns (false, some (pos 0))
  unfolding should_retry_job
  should_retry_spent f job e = rw e

  should_retry_left :
      (f : Failure R) (job : Job) (d : Option ℤ)
      → ltb (job.attempts_made + 1) job.attempts && not (is_unrecoverable f.error) ≡ true
      → delay_for f job ≡ returns d
      → should_retry_job f.random custom f.error job
        ≡ returns (not (is_stop d), if is_stop d then some (pos 0) else d)
  unfolding should_retry_job
  should_retry_left f job none e h = rw (e, h)
  should_retry_left f job (some d) e h = elim (Bool-cases (is_minus_one d)) [
    | inl stop ↦ rw (e, h, stop, should_retry_job)
    | inr go ↦ rw (e, h, go, should_retry_job)
  ]

  pub carry_out_calls :
      (f : Failure R) (retry : Bool) (delay : Option ℤ) (job : Job)
      → (carry_out f retry delay job).calls ≡ call_for f retry delay job ∷ []
  unfolding carry_out
  carry_out_calls f retry delay job =
      elim (Outcome-cases (f.backend (call_for f retry delay job))) [
        | inl (reply, e) ↦ rw (e, carry_out)
        | inr (error, e) ↦ rw (e, carry_out)
      ]

  pub is_final-call_for :
      (f : Failure R) (retry : Bool) (delay : Option ℤ) (job : Job)
      → is_final (call_for f retry delay job) ≡ not retry
  unfolding call_for
  is_final-call_for f retry delay job = ground arith

  abbrev pub may_retry : Failure R → Job → Bool
  may_retry f job = ltb (job.attempts_made + 1) job.attempts && not (is_unrecoverable f.error)

  pub fail_job_spent :
      (f : Failure R) (job : Job)
      → may_retry f job ≡ false
      → fail_job custom f job
        ≡ carry_out f false (some (pos 0)) (update_stacktrace f.error (failing f job))
  unfolding fail_job
  fail_job_spent f job e = rw (should_retry_spent f (failing f job) e, fail_job)

  pub fail_job_left :
      (f : Failure R) (job : Job) (d : Option ℤ)
      → may_retry f job ≡ true
      → next_delay f job ≡ returns d
      → fail_job custom f job
        ≡ carry_out f
            (not (is_stop d))
            (if is_stop d then some (pos 0) else d)
            (update_stacktrace f.error (failing f job))
  unfolding fail_job
  fail_job_left f job d e h = rw (should_retry_left f (failing f job) d e h, fail_job)

  should_retry_throws :
      (f : Failure R) (job : Job) (x : StrategyError)
      → may_retry f job ≡ true
      → delay_for f job ≡ throws x
      → should_retry_job f.random custom f.error job ≡ throws x
  unfolding should_retry_job
  should_retry_throws f job x e h = rw (e, h)

  fail_job_throws :
      (f : Failure R) (job : Job) (x : StrategyError)
      → may_retry f job ≡ true
      → next_delay f job ≡ throws x
      → (fail_job custom f job).calls ≡ []
  unfolding fail_job
  fail_job_throws f job x e h = rw (should_retry_throws f (failing f job) x e h, fail_job)

  -- No attempt is left, the error is unrecoverable, or the strategy says that it is enough.
  abbrev pub IsOver : Failure R → Job → Type 0
  IsOver f job =
      (job.attempts ≤ job.attempts_made + 1)
      ⊎ (is_unrecoverable f.error ≡ true)
      ⊎ (next_delay f job ≡ returns (some (negsuc 0)))

  spent-IsOver : (f : Failure R) (job : Job) → may_retry f job ≡ false → IsOver f job
  spent-IsOver f job e = ground arith

  left-IsOver :
      (f : Failure R) (job : Job) (d : Option ℤ)
      → may_retry f job ≡ true
      → next_delay f job ≡ returns d
      → IsOver f job ↔ (is_stop d ≡ true)
  left-IsOver f job d left e = (
    λ over. elim over [
      | inl none_left ↦ absurd (ground arith)
      | inr more ↦ elim more [
        | inl fatal ↦ absurd (ground arith)
        | inr stop ↦ ground (arith, e, stop)
      ]
    ],
    λ stop. inr (inr (rw (e, is_stop_lem d stop))),
  )

  -- A failed attempt that reaches the backend moves the job to the failed set, and not to a further
  -- attempt, exactly when no attempt is left, the error is unrecoverable, or the strategy says that
  -- it is enough.
  pub final_iff :
      (f : Failure R) (job : Job) (c : Call)
      → (fail_job custom f job).calls ≡ c ∷ []
      → (is_final c ≡ true) ↔ IsOver f job
  final_iff f job c made = elim (Bool-cases (may_retry f job)) [
    | inr spent ↦
        let same = rw (fail_job_spent f job spent, carry_out_calls) at made in
        let final = final_same _ c same ∙ is_final-call_for f false (some (pos 0)) _ in
        (λ _. spent-IsOver f job spent, λ _. final)
    | inl left ↦ elim (Outcome-cases (next_delay f job)) [
      | inl (d, e) ↦
          let same = rw (fail_job_left f job d left e, carry_out_calls) at made in
          let final = final_same _ c same ∙ is_final-call_for f (not (is_stop d)) _ _ in
          let over = left-IsOver f job d left e in
          (λ h. over.1 (stopped d (sym final ∙ h)), λ h. final ∙ ap not (ap not (over.0 h)))
      | inr (x, e) ↦ absurd (cc (fail_job_throws f job x left e))
    ]
  ]

-- ===== src/Job/Failing/Exhausted.antt =====
-- A job of src/classes/job.ts whose attempts all fail: how many there are.
use bullmq.Shared.{
  ℕ, suc, ◌+◌, ltb, not, Bool, true, false, List, [], ◌∷◌, ◌++◌, map, Option, some, length, ℤ, pos,
  returns, ◌≡◌, refl, sym, subst, ◌∙◌, ap, arith, Bool-cases, All, inl, inr,
}
use bullmq.Backoffs.{calculate, BackoffOptions}
use bullmq.Job.{Job}
use bullmq.Job.Failing.{
  CustomStrategy, given_to, is_unrecoverable, update_stacktrace, Call, Reply, Failure, call_for,
  carry_out, fail_job, finish,
}
use bullmq.Job.Failing.Attempts.{
  is_final, is_stop, failing, carry_out_calls, is_final-call_for, fail_job_spent, fail_job_left,
}

spent_lem : (a n : ℕ) → a ≡ n → not (ltb a n) ≡ true
spent_lem a n e = ground arith

left_lem : (a k n : ℕ) → a + suc (suc k) ≡ n → not (ltb (a + 1) n) ≡ false
left_lem a k n e = ground arith

cons_lem : (b : Bool) (xs ys : List Bool) → b ≡ false → xs ≡ ys → (b ∷ xs) ≡ false ∷ ys
cons_lem b xs ys e h = cc

module _ {R : Type 0} (custom : Option CustomStrategy) where
  -- The calls of the backend over a row of failed attempts.
  abbrev pub fail_all : List (Failure R) → Job → List Call
  fail_all [] job = []
  fail_all (f ∷ fs) job = let m = fail_job custom f job in m.calls ++ fail_all fs m.job

  -- A failure that may be retried: the error is recoverable, the strategy neither throws nor says
  -- that it is enough, and the backend answers.
  pub record IsRetriable (backoff : Option BackoffOptions) (f : Failure R) : Type 0 where
    pub recoverable : is_unrecoverable f.error ≡ false
    pub goes_on :
        (n : ℕ) (job : Job)
        → (d : Option ℤ) × (calculate f.random backoff n (given_to f.error job custom) ≡ returns d)
          × (is_stop d ≡ false)
    pub answers : (c : Call) → (reply : Reply R) × (f.backend c ≡ returns reply)

  -- What one such failure does.
  pub record Steps (f : Failure R) (job : Job) : Type 0 where
    pub call : Call
    pub called : (fail_job custom f job).calls ≡ call ∷ []
    pub final : is_final call ≡ not (ltb (job.attempts_made + 1) job.attempts)
    made : (fail_job custom f job).job.attempts_made ≡ job.attempts_made + 1
    attempts : (fail_job custom f job).job.attempts ≡ job.attempts
    backoff : (fail_job custom f job).job.backoff ≡ job.backoff

  carry_out-job :
      (f : Failure R) (retry : Bool) (delay : Option ℤ) (job : Job) (reply : Reply R)
      → f.backend (call_for f retry delay job) ≡ returns reply
      → (carry_out f retry delay job).job ≡ finish retry delay reply job
  unfolding carry_out
  carry_out-job f retry delay job reply e = rw (e, carry_out)

  carry_out-Steps :
      (f : Failure R) (job : Job) (retry : Bool) (delay : Option ℤ)
      → IsRetriable job.backoff f
      → fail_job custom f job
        ≡ carry_out f retry delay (update_stacktrace f.error (failing custom f job))
      → ltb (job.attempts_made + 1) job.attempts ≡ retry
      → Steps f job
  unfolding finish update_stacktrace
  carry_out-Steps f job retry delay h e left =
      let traced = update_stacktrace f.error (failing custom f job) in
      let c = call_for f retry delay traced in
      let (reply, answered) = h.answers c in
      let moved = ap (λ m. m.job) e ∙ carry_out-job f retry delay traced reply answered in
      record {
        call = c;
        called = ap (λ m. m.calls) e ∙ carry_out_calls custom f retry delay traced;
        final = is_final-call_for custom f retry delay traced ∙ ap not (sym left);
        made = ap (λ (j : Job). j.attempts_made) moved;
        attempts = ap (λ (j : Job). j.attempts) moved;
        backoff = ap (λ (j : Job). j.backoff) moved;
      }

  pub steps_lem : (f : Failure R) (job : Job) → IsRetriable job.backoff f → Steps f job
  steps_lem f job h = elim (Bool-cases (ltb (job.attempts_made + 1) job.attempts)) [
    | inl left ↦
        let (d, e, go) = h.goes_on (job.attempts_made + 1) (failing custom f job) in
        let eq = fail_job_left custom f job d (rw (left, h.recoverable)) e in
        carry_out-Steps f job true d h (rw go at eq) left
    | inr spent ↦
        carry_out-Steps f job false (some (pos 0)) h (fail_job_spent custom f job (rw spent)) spent
  ]

  -- `true` for the last entry, `false` for those before it.
  abbrev pub lasts : List (Failure R) → List Bool
  lasts [] = []
  lasts (f ∷ []) = true ∷ []
  lasts (f ∷ g ∷ fs) = false ∷ lasts (g ∷ fs)

  -- A job that has `length fs` attempts left is tried exactly that often: if all those attempts
  -- fail with recoverable errors, the strategy neither throws nor says that it is enough, and the
  -- backend answers every call, then each failure but the last schedules another attempt, and the
  -- last one, and no other, moves the job to the failed set.
  pub attempts_exhausted :
      (fs : List (Failure R)) (job : Job)
      → All (IsRetriable job.backoff) fs
      → job.attempts_made + length fs ≡ job.attempts
      → map is_final (fail_all fs job) ≡ lasts fs
  attempts_exhausted [] job hs e = refl
  attempts_exhausted (f ∷ []) job hs e =
      let s = steps_lem f job hs.0 in
      rw (s.called, s.final) (ap (λ b. b ∷ []) (spent_lem (job.attempts_made + 1) job.attempts e))
  attempts_exhausted (f ∷ g ∷ fs) job hs e =
      let s = steps_lem f job hs.0 in
      let job' = (fail_job custom f job).job in
      let rest =
        attempts_exhausted (g ∷ fs) job'
          (subst (λ b. All (IsRetriable b) (g ∷ fs)) (sym s.backoff) hs.1)
          (omega (arith, s.made, s.attempts)) in
      rw s.called
        (cons_lem _ _ _ (s.final ∙ left_lem job.attempts_made (length fs) job.attempts e) rest)

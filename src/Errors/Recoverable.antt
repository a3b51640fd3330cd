-- ===== src/Errors/Recoverable.antt =====
-- Which errors of src/classes/finished-errors.ts a failed job is retried after.
use bullmq.Shared.{Bool, true, false, Option, none, some, ℤ, pos, negsuc, ◌≡◌, refl, ◌↔◌, arith}
use bullmq.Job.Failing.{is_unrecoverable}
use bullmq.Errors.{
  ErrorCode, job_not_exist, job_lock_not_exist, job_not_in_state, job_pending_children,
  parent_job_not_exist, job_lock_mismatch, parent_job_cannot_be_replaced,
  job_belongs_to_job_scheduler, scheduler_job_id_collision, scheduler_job_slots_busy, number_of,
  case_of, error_of, Arguments, finished_errors, job_has_failed_children,
}

abbrev is_failed_children : Option ErrorCode → Bool
is_failed_children (some job_has_failed_children) = true
is_failed_children _ = false

error_of-is_unrecoverable :
    (o : Option ErrorCode) (a : Arguments) → is_unrecoverable (error_of o a) ≡ is_failed_children o
unfolding error_of is_unrecoverable
error_of-is_unrecoverable none a = refl
error_of-is_unrecoverable (some job_not_exist) a = refl
error_of-is_unrecoverable (some job_lock_not_exist) a = refl
error_of-is_unrecoverable (some job_not_in_state) a = refl
error_of-is_unrecoverable (some job_pending_children) a = refl
error_of-is_unrecoverable (some parent_job_not_exist) a = refl
error_of-is_unrecoverable (some job_lock_mismatch) a = refl
error_of-is_unrecoverable (some parent_job_cannot_be_replaced) a = refl
error_of-is_unrecoverable (some job_belongs_to_job_scheduler) a = refl
error_of-is_unrecoverable (some job_has_failed_children) a = refl
error_of-is_unrecoverable (some scheduler_job_id_collision) a = refl
error_of-is_unrecoverable (some scheduler_job_slots_busy) a = refl

case_of_lem :
    (code : ℤ)
    → (is_failed_children (case_of code) ≡ true) ↔ (code ≡ number_of job_has_failed_children)
unfolding case_of number_of
case_of_lem (pos n) = ground arith
case_of_lem (negsuc n) = ground arith

-- The error of a backend's status code is one that forbids further attempts of a job exactly when
-- the code is the one for failed children.
pub finished_errors_unrecoverable :
    (a : Arguments)
    → (is_unrecoverable (finished_errors a).0 ≡ true) ↔ (a.code ≡ number_of job_has_failed_children)
unfolding finished_errors
finished_errors_unrecoverable a =
    rw (error_of-is_unrecoverable (case_of a.code) a) (case_of_lem a.code)

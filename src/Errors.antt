-- ===== src/Errors.antt =====
-- `finishedErrors` of src/classes/finished-errors.ts, with the codes of src/enums/error-code.ts and
-- the keys of src/classes/queue-keys.ts.
pub mod Recoverable
use bullmq.Shared.{
  ℕ, ◌==◌, if◌then◌else◌, List, [], ◌∷◌, Option, none, some, String, ◌<>◌, ℤ, pos, negsuc, Dict,
  put,
}
use bullmq.Job.Failing.{JobError, ErrorClass, unrecoverable, other}

pub data ErrorCode : Type 0 where
  job_not_exist job_lock_not_exist job_not_in_state job_pending_children : ErrorCode
  parent_job_not_exist job_lock_mismatch parent_job_cannot_be_replaced : ErrorCode
  job_belongs_to_job_scheduler job_has_failed_children : ErrorCode
  scheduler_job_id_collision scheduler_job_slots_busy : ErrorCode

unfoldable pub number_of : ErrorCode → ℤ
number_of job_not_exist = negsuc 0
number_of job_lock_not_exist = negsuc 1
number_of job_not_in_state = negsuc 2
number_of job_pending_children = negsuc 3
number_of parent_job_not_exist = negsuc 4
number_of job_lock_mismatch = negsuc 5
number_of parent_job_cannot_be_replaced = negsuc 6
number_of job_belongs_to_job_scheduler = negsuc 7
number_of job_has_failed_children = negsuc 8
number_of scheduler_job_id_collision = negsuc 9
number_of scheduler_job_slots_busy = negsuc 10

-- The case that a code falls under.
unfoldable pub case_of : ℤ → Option ErrorCode
case_of (pos n) = none
case_of (negsuc n) =
    if n == 0
    then some job_not_exist
    else if n == 1
    then some job_lock_not_exist
    else if n == 2
    then some job_not_in_state
    else if n == 3
    then some job_pending_children
    else if n == 4
    then some parent_job_not_exist
    else if n == 5
    then some job_lock_mismatch
    else if n == 6
    then some parent_job_cannot_be_replaced
    else if n == 7
    then some job_belongs_to_job_scheduler
    else if n == 8
    then some job_has_failed_children
    else if n == 9
    then some scheduler_job_id_collision
    else if n == 10
    then some scheduler_job_slots_busy
    else none

-- The arguments, as text, where one that is missing is "undefined"; `code_text` is the code's text.
pub record Arguments : Type 0 where
  pub code : ℤ
  pub code_text : String
  pub job_id : String
  pub parent_key : String
  pub command : String
  pub state : String

abbrev plain_error : String → JobError
plain_error message = record { class = other; name = "Error"; message = message; stack = none }

-- The error of each case, without its stack.
unfoldable pub error_of : Option ErrorCode → Arguments → JobError
error_of none a =
    plain_error ("Unknown code " <> a.code_text <> " error for " <> a.job_id <> ". " <> a.command)
error_of (some job_not_exist) a =
    plain_error ("Missing key for job " <> a.job_id <> ". " <> a.command)
error_of (some job_lock_not_exist) a =
    plain_error ("Missing lock for job " <> a.job_id <> ". " <> a.command)
error_of (some job_not_in_state) a =
    plain_error ("Job " <> a.job_id <> " is not in the " <> a.state <> " state. " <> a.command)
error_of (some job_pending_children) a =
    plain_error ("Job " <> a.job_id <> " has pending dependencies. " <> a.command)
error_of (some parent_job_not_exist) a =
    plain_error ("Missing key for parent job " <> a.parent_key <> ". " <> a.command)
error_of (some job_lock_mismatch) a =
    plain_error
      ("Lock mismatch for job " <> a.job_id <> ". Cmd " <> a.command <> " from " <> a.state)
error_of (some parent_job_cannot_be_replaced) a =
    plain_error ("The parent job " <> a.parent_key <> " cannot be replaced. " <> a.command)
error_of (some job_belongs_to_job_scheduler) a = plain_error (
    "Job " <> a.job_id <> " belongs to a job scheduler and cannot be removed directly. "
    <> a.command)
error_of (some job_has_failed_children) a = record {
  class = unrecoverable;
  name = "UnrecoverableError";
  message =
      "Cannot complete job " <> a.job_id <> " because it has at least one failed child. "
      <> a.command;
  stack = none;
}
error_of (some scheduler_job_id_collision) a =
    plain_error ("Cannot create job scheduler iteration - job ID already exists. " <> a.command)
error_of (some scheduler_job_slots_busy) a = plain_error (
    "Cannot create job scheduler iteration - current and next time slots already have jobs. "
    <> a.command)

-- The error, and the code that is set on it.
unfoldable pub finished_errors : Arguments → JobError × ℤ
unfolding case_of error_of
finished_errors a = (error_of (case_of a.code) a, a.code)

unfoldable pub get_queue_qualified_name : String → String → String
get_queue_qualified_name prefix name = prefix <> ":" <> name

unfoldable pub to_key : String → String → String → String
unfolding get_queue_qualified_name
to_key prefix name type = get_queue_qualified_name prefix name <> ":" <> type

abbrev key_types : List String
key_types =
    "" ∷ "active" ∷ "wait" ∷ "waiting-children" ∷ "paused" ∷ "id" ∷ "delayed" ∷ "prioritized"
    ∷ "stalled-check" ∷ "completed" ∷ "failed" ∷ "stalled" ∷ "repeat" ∷ "limiter" ∷ "meta"
    ∷ "events" ∷ "pc" ∷ "marker" ∷ "de" ∷ []

abbrev set_keys : String → String → List String → Dict String → Dict String
set_keys prefix name [] m = m
set_keys prefix name (t ∷ ts) m = set_keys prefix name ts (put t (to_key prefix name t) m)

unfoldable pub get_keys : String → String → Dict String
unfolding to_key
get_keys prefix name = set_keys prefix name key_types []

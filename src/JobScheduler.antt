-- ===== src/JobScheduler.antt =====
-- `JobScheduler` of src/classes/job-scheduler.ts: the options of a repetition.
pub mod LegacyKeys
pub mod NextMillis
pub mod Stored
pub mod Upserting
use bullmq.Shared.{ℕ, ◌==◌, if◌then◌else◌, Bool, true, false, not, Option, none, some, String}

-- `RepeatOptions`. A date is the time that it stands for, and none is one that a test takes for
-- false. The options of the cron parser are carried along unread.
pub record RepeatOptions : Type 0 where
  pub pattern : Option String
  pub every : Option ℕ
  pub limit : Option ℕ
  pub offset : Option ℕ
  pub count : Option ℕ
  pub immediately : Bool
  pub start_date : Option ℕ
  pub end_date : Option ℕ
  pub tz : Option String

-- What the methods throw; `strategy_failed` is an error of the repeat strategy, such as one of the
-- cron parser.
pub data ScheduleError : Type 0 where
  both_defined : ScheduleError
  neither_defined : ScheduleError
  immediately_with_start_date : ScheduleError
  debounce_removed : ScheduleError
  strategy_failed : String → ScheduleError

-- A number that a test takes for true.
abbrev pub is_set : Option ℕ → Bool
is_set none = false
is_set (some n) = not (n == 0)

-- A number, where an absent one counts as 0.
abbrev pub or_zero : Option ℕ → ℕ
or_zero none = 0
or_zero (some n) = n

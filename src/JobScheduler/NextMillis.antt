-- ===== src/JobScheduler/NextMillis.antt =====
-- `getNextMillis` and `defaultRepeatStrategy` of src/classes/job-scheduler.ts.
use bullmq.Shared.{
  ℕ, ◌+◌, ◌*◌, ◌/◌, ltb, if◌then◌else◌, Bool, ◌&&◌, Option, none, some, String, is_given, Outcome,
  returns, throw_if, ◌>>◌, ◌>>=◌,
}
use bullmq.JobScheduler.{RepeatOptions, ScheduleError, both_defined, is_set, or_zero}

-- The cron parser: for a pattern and the current date it gives the next date, or none where
-- `next` throws; or the pattern is refused.
abbrev pub CronParser : Type 0
CronParser = Option String → ℕ → Outcome ScheduleError (Option ℕ)

abbrev later_start : Option ℕ → ℕ → ℕ
later_start none millis = millis
later_start (some start) millis = if ltb millis start then start else millis

-- The next date of a pattern, where `clock` is the time at the call.
unfoldable pub next_of_pattern :
    CronParser → ℕ → ℕ → RepeatOptions → Outcome ScheduleError (Option ℕ)
next_of_pattern parser clock millis opts = do
  next ← parser opts.pattern (later_start opts.start_date millis)
  returns (if opts.immediately then some clock else next)

unfoldable pub default_repeat_strategy :
    CronParser → ℕ → ℕ → RepeatOptions → Outcome ScheduleError (Option ℕ)
unfolding next_of_pattern
default_repeat_strategy parser clock millis opts = next_of_pattern parser clock millis opts

-- `Math.floor(millis / every) * every + (immediately ? 0 : every)`.
unfoldable pub next_of_every : ℕ → Bool → ℕ → ℕ
next_of_every every immediately millis = millis / every * every + (if immediately then 0 else every)

unfoldable pub get_next_millis :
    CronParser → ℕ → ℕ → RepeatOptions → Outcome ScheduleError (Option ℕ)
unfolding next_of_pattern next_of_every
get_next_millis parser clock millis opts =
    throw_if (is_given opts.pattern && is_set opts.every) both_defined
    >> (if is_set opts.every
        then returns (some (next_of_every (or_zero opts.every) opts.immediately millis))
        else next_of_pattern parser clock millis opts)

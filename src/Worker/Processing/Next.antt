-- ===== src/Worker/Processing/Next.antt =====
-- `moveToActive` and `nextJobFromJobData` of src/classes/worker.ts.
use bullmq.Shared.{
  ◌===◌, if◌then◌else◌, Bool, true, false, Option, none, some, String, ◌<>◌, codes, Outcome,
  returns, throws,
}
use bullmq.JobScheduler.LegacyKeys.{has_legacy_repeatable_key_shape, legacy_repeatable_job_message}
use bullmq.Worker.Timing.{update_delays}
use bullmq.Worker.Retrying.{WorkerError, Ended, gives, swallows, rethrows, goes_on}
use bullmq.Worker.Processing.{
  ActiveJob, Fetched, active, drained, scheduling_error, Session, NextJob, no_job, unfinished,
  next_job, Context, emit, retry, on_backend,
}

module _ {B R : Type 0} (c : Context B R) where
  abbrev upsert : ActiveJob → String → B → Outcome WorkerError Bool × B
  upsert job key b =
      let (answer, b') = c.api.upsert_job_scheduler job key b in
      (elim answer [ returns u ↦ returns true | throws e ↦ throws e ], b')

  abbrev after_probe :
      ActiveJob → String → Outcome WorkerError Bool × B → Outcome WorkerError Bool × B
  after_probe job key (throws e, b) = (throws e, b)
  after_probe job key (returns false, b) = (returns false, b)
  after_probe job key (returns true, b) = upsert job key b

  -- The operation that `nextJobFromJobData` retries: whether the next iteration was, or need not
  -- be, scheduled.
  unfoldable pub schedule_repeat : ActiveJob → B → Outcome WorkerError Bool × B
  unfolding has_legacy_repeatable_key_shape
  schedule_repeat job b = elim job.repeat_job_key [
    | none ↦ (returns true, b)
    | some key ↦
        if key === ""
        then (returns true, b)
        else if has_legacy_repeatable_key_shape (codes key)
        then after_probe job key (c.api.is_job_scheduler key b)
        else upsert job key b
  ]

  abbrev key_of : ActiveJob → String
  key_of job = elim job.repeat_job_key [ none ↦ "" | some key ↦ key ]

  abbrev scheduling_failed : String → Session B → Session B
  scheduling_failed message s =
      emit (scheduling_error ("Failed to add repeatable job for next iteration: " <> message)) s

  -- What follows the scheduling of the next iteration.
  unfoldable pub after_schedule :
      ActiveJob → Ended WorkerError Bool × Session B → NextJob × Session B
  unfolding legacy_repeatable_job_message
  after_schedule job (gives true, s) = (next_job job, emit (active job.id) s)
  after_schedule job (gives false, s) = (
    next_job job,
    emit (active job.id) (scheduling_failed (legacy_repeatable_job_message (key_of job)) s),
  )
  after_schedule job (swallows, s) = (
    next_job job,
    emit (active job.id) (scheduling_failed (legacy_repeatable_job_message (key_of job)) s),
  )
  after_schedule job (rethrows e, s) = (no_job, scheduling_failed e.error.message s)
  after_schedule job (goes_on, s) = (unfinished, s)

  unfoldable pub next_job_from_job_data :
      Option ActiveJob → String → Session B → NextJob × Session B
  unfolding after_schedule schedule_repeat
  next_job_from_job_data none token s = (
    no_job,
    if s.timing.drained
        then s
        else emit drained (record s { timing = record s.timing { drained = true } }),
  )
  next_job_from_job_data (some data_job) token s =
      let job = record data_job { token = token } in
      let s' = record s { timing = record s.timing { drained = false } } in
      after_schedule job (retry c false (on_backend (schedule_repeat job)) s')

  -- What follows an answer of the backend that may hold the next job.
  abbrev pub take_next : Fetched → String → Session B → Outcome WorkerError NextJob × Session B
  take_next f token s =
      let timing = update_delays c.now f.rate_limit_delay f.delay_until s.timing in
      let (next, s') = next_job_from_job_data f.job token (record s { timing = timing }) in
      (returns next, s')

  unfoldable pub move_to_active : String → Session B → Outcome WorkerError NextJob × Session B
  unfolding next_job_from_job_data update_delays
  move_to_active token s =
      let (answer, s') = on_backend (c.api.move_to_active token) s in
      elim answer [ returns f ↦ take_next f token s' | throws e ↦ (throws e, s') ]

-- ===== src/JobScheduler/Upserting.antt =====
-- `upsertJobScheduler` and `getNextJobOpts` of src/classes/job-scheduler.ts: which request goes to
-- the backend, and the job of its answer.
pub mod Future
use bullmq.Shared.{
  ℕ, suc, ◌+◌, ◌-◌, ◌==◌, ltb, if◌then◌else◌, Bool, true, false, not, ◌&&◌, Option, none, some,
  String, ◌<>◌, is_given, is_some, ◌||◌, max, Outcome, returns, throws, throw_if, ◌>>◌, ◌>>=◌,
}
use bullmq.Job.{JobsOptions, Job}
use bullmq.Job.Options.{new}
use bullmq.JobScheduler.{
  RepeatOptions, ScheduleError, both_defined, neither_defined, immediately_with_start_date,
  debounce_removed, is_set, or_zero,
}

-- The options of the next job: those of the template with what `getNextJobOpts` sets. A delay of
-- none is NaN, and `prevMillis` is none if it is undefined.
pub record JobSchedulerJobOptions : Type 0 where
  pub opts : JobsOptions
  pub job_id : String
  pub delay : Option ℕ
  pub timestamp : ℕ
  pub prev_millis : Option ℕ
  pub repeat_job_key : String
  pub repeat_opts : RepeatOptions

-- What `addJobScheduler` of the backend is told of the repetition.
pub record Template : Type 0 where
  pub name : String
  pub start_date : Option ℕ
  pub end_date : Option ℕ
  pub tz : Option String
  pub pattern : Option String
  pub every : Option ℕ
  pub limit : Option ℕ
  pub offset : Option ℕ

-- The call of the backend: `addJobScheduler`, or `updateJobSchedulerNextMillis` where there is no
-- template.
pub record Request : Type 0 where
  pub template : Option Template
  pub job_scheduler_id : String
  pub next_millis : Option ℕ
  pub merged : JobSchedulerJobOptions
  pub producer_id : Option String

-- The runtime: `Date.now()` at the start and in `getNextJobOpts`, and the text of a number.
pub record Runtime : Type 0 where
  pub now : ℕ
  pub now_later : ℕ
  pub print : ℕ → String

abbrev printed : (ℕ → String) → Option ℕ → String
printed print none = "undefined"
printed print (some n) = print n

unfoldable pub get_scheduler_next_job_id : (ℕ → String) → String → Option ℕ → String
get_scheduler_next_job_id print id next_millis = "repeat:" <> id <> ":" <> printed print next_millis

-- `nextMillis + offset - now`, and 0 if that is below 0.
abbrev pub delay_until : Option ℕ → Option ℕ → ℕ → Option ℕ
delay_until none offset now = none
delay_until (some next) offset now = some (next + or_zero offset - now)

unfoldable pub get_next_job_opts :
    Runtime
    → Option ℕ
    → String
    → JobsOptions
    → RepeatOptions
    → ℕ
    → Option ℕ
    → JobSchedulerJobOptions
unfolding get_scheduler_next_job_id
get_next_job_opts r next_millis id opts repeat_opts current_count offset = record {
  opts = opts;
  job_id = get_scheduler_next_job_id r.print id next_millis;
  delay = delay_until next_millis offset r.now_later;
  timestamp = r.now_later;
  prev_millis = next_millis;
  repeat_job_key = id;
  repeat_opts = record repeat_opts {
    offset = offset;
    count = some current_count;
    immediately = false;
  };
}

-- The checks at the start.
unfoldable pub check_repeat : RepeatOptions → Bool → Outcome ScheduleError (Unit {0})
check_repeat o debounce = do
  throw_if (is_given o.pattern && is_set o.every) both_defined
  throw_if (not (is_given o.pattern) && not (is_set o.every)) neither_defined
  throw_if (o.immediately && is_some o.start_date) immediately_with_start_date
  throw_if debounce debounce_removed

abbrev pub iteration_count : RepeatOptions → ℕ
iteration_count o = if is_set o.count then or_zero o.count + 1 else 1

-- Whether the limit of iterations is passed, or the end date.
abbrev pub is_over : RepeatOptions → ℕ → Bool
is_over o now =
    elim o.limit [ some limit ↦ ltb limit (iteration_count o) | none ↦ false ]
    || (elim o.end_date [ some end_date ↦ ltb end_date now | none ↦ false ])

abbrev pub clamp : ℕ → Option ℕ → Option ℕ
clamp now none = none
clamp now (some next) = some (if ltb next now then now else next)

-- The next time of a pattern, and none without a pattern.
unfoldable pub next_millis_of :
    (ℕ → RepeatOptions → Outcome ScheduleError (Option ℕ))
    → ℕ
    → RepeatOptions
    → Outcome ScheduleError (Option ℕ)
next_millis_of strategy now o =
    if is_given o.pattern
    then strategy now o >>= (λ next. returns (clamp now next))
    else returns none

abbrev pub offset_of : RepeatOptions → Option ℕ
offset_of o = if is_set o.every && is_set o.offset then o.offset else none

-- The template of a call with `override`.
unfoldable pub template_of : Bool → String → RepeatOptions → Option Template
template_of false name o = none
template_of true name o = some (record {
  name = name;
  start_date = o.start_date;
  end_date = o.end_date;
  tz = o.tz;
  pattern = o.pattern;
  every = o.every;
  limit = o.limit;
  offset = offset_of o;
})

unfoldable pub request_of :
    Runtime
    → ℕ
    → Bool
    → String
    → String
    → RepeatOptions
    → JobsOptions
    → Option String
    → Option ℕ
    → Request
unfolding template_of get_next_job_opts
request_of r now override id name o opts producer_id next = record {
  template = template_of override name o;
  job_scheduler_id = id;
  next_millis = if override then clamp now next else next;
  merged = get_next_job_opts r next id opts o (iteration_count o) (offset_of o);
  producer_id = producer_id;
}

-- The request of `upsertJobScheduler`, if there is one.
unfoldable pub upsert_job_scheduler :
    Runtime
    → (ℕ → RepeatOptions → Outcome ScheduleError (Option ℕ))
    → String
    → RepeatOptions
    → String
    → JobsOptions
    → Option ℕ
    → Bool
    → Option String
    → Outcome ScheduleError (Option Request)
unfolding check_repeat next_millis_of request_of
upsert_job_scheduler r strategy id o name opts prev_millis override producer_id =
    let now = max (or_zero prev_millis) r.now in
    check_repeat o opts.debounce
    >> (if is_over o r.now
        then returns none
        else next_millis_of strategy now o >>= (λ next. returns (
            if is_set next || is_set o.every
            then some (request_of r now override id name o opts producer_id next)
            else none)))

-- The job of the answer to `addJobScheduler`, an id and a delay.
unfoldable pub added_job : Request → String → String → ℕ → Job
unfolding new
added_job q name job_id delay =
    let m = q.merged in
    new m.timestamp name
      (record m.opts {
        job_id = some m.job_id;
        delay = some delay;
        timestamp = some m.timestamp;
        repeat_job_key = some m.repeat_job_key;
      })
      (some job_id)

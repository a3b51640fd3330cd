-- ===== src/Tests/JobScheduler.antt =====
-- Runs of the models of src/classes/job-scheduler.ts.
use bullmq.Shared.{
  ℕ, ◌+◌, ◌-◌, ◌≤◌, ◌≡◌, ◌===◌, if◌then◌else◌, [], ◌∷◌, String, Dict, length, map, refl, ◌↔◌, true,
  false, List, Option, none, some, codes, is_given, Outcome, returns,
}
use bullmq.JobScheduler.{RepeatOptions, is_set, or_zero}
use bullmq.JobScheduler.LegacyKeys.{has_legacy_repeatable_key_shape}
use bullmq.JobScheduler.LegacyKeys.Grammar.{
  IsLegacyKey, has_legacy_repeatable_key_shape-IsLegacyKey,
}
use bullmq.JobScheduler.NextMillis.{CronParser, default_repeat_strategy}
use bullmq.JobScheduler.Stored.{JobSchedulerJson, Parser, get_job_schedulers}
use bullmq.JobScheduler.Stored.Sweeping.{get_job_schedulers-keep}
use bullmq.JobScheduler.Upserting.{Request, Runtime, upsert_job_scheduler, request_of}
use bullmq.JobScheduler.Upserting.Future.{
  next_count, IsRepeatable, IsWithin, upsert_job_scheduler-IsWithin,
}
use bullmq.Tests.FlowProducer.{no_options}

abbrev legacy : List ℕ
legacy = codes "n:id::tz:5000"

legacy_taken : has_legacy_repeatable_key_shape legacy ≡ true
unfolding has_legacy_repeatable_key_shape
legacy_taken = refl

scheduler_id_kept : has_legacy_repeatable_key_shape (codes "a:b:c:d:e") ≡ false
unfolding has_legacy_repeatable_key_shape
scheduler_id_kept = refl

has_legacy_repeatable_key_shape-IsLegacyKey_example :
    (has_legacy_repeatable_key_shape legacy ≡ true) ↔ IsLegacyKey legacy
has_legacy_repeatable_key_shape-IsLegacyKey_example =
    has_legacy_repeatable_key_shape-IsLegacyKey legacy

-- A parser whose next date is a minute later.
abbrev parser : CronParser
parser = λ pattern date. returns (some (date + 60))

abbrev each_second : RepeatOptions
each_second = record {
  pattern = none;
  every = some 1000;
  limit = none;
  offset = none;
  count = none;
  immediately = false;
  start_date = none;
  end_date = none;
  tz = none;
}

abbrev each_minute : RepeatOptions
each_minute = record each_second {
  pattern = some "* * * * *";
  every = none;
  limit = some 3;
  count = some 2;
}

abbrev runtime : Runtime
runtime = record { now = 100; now_later = 101; print = λ n. "n" }

abbrev strategy : ℕ → RepeatOptions → Outcome bullmq.JobScheduler.ScheduleError (Option ℕ)
strategy = λ now o. default_repeat_strategy parser 100 now o

abbrev asked : Request
asked = request_of runtime 120 true "s" "job" each_minute no_options none (some 180)

upsert_job_scheduler-IsWithin_example :
    IsRepeatable each_minute
    × (no_options.debounce ≡ false)
    × IsWithin each_minute 100
    × (asked.merged.repeat_opts.count ≡ some (next_count each_minute))
    × (is_given each_minute.pattern ≡ true
        → (next : ℕ) × (asked.next_millis ≡ some next)
          × (100 ≤ next)
          × (120 ≤ next)
          × (asked.merged.prev_millis ≡ some next)
          × (asked.merged.delay ≡ some (next - 101)))
unfolding upsert_job_scheduler default_repeat_strategy
upsert_job_scheduler-IsWithin_example =
    upsert_job_scheduler-IsWithin runtime strategy "s" each_minute "job" no_options (some 120) true
      none asked refl

abbrev json_parser : Parser ℕ ℕ String
json_parser = record {
  parse_int = λ t. elim t [ none ↦ 0 | some digits ↦ length (codes digits) ];
  parse_data = λ t. returns t;
  parse_opts = λ t. returns (("kl", bullmq.Redis.Options.plain 5) ∷ []);
}

-- One scheduler is there, with a template.
abbrev hashes : String → Dict String
hashes key =
    if key === "a"
    then ("name", "job") ∷ ("ic", "3") ∷ ("every", "1000") ∷ ("tz", "") ∷ ("opts", "{}") ∷ []
    else []

abbrev range : List String
range = "a" ∷ "2000" ∷ "b" ∷ "3000" ∷ "b:c" ∷ []

abbrev listed : List (JobSchedulerJson ℕ ℕ String)
listed =
    record {
      key = "a";
      name = some "job";
      next = some 4;
      iteration_count = some 1;
      limit = none;
      start_date = none;
      end_date = none;
      tz = none;
      pattern = none;
      every = some 4;
      offset = none;
      template = some (record {
        job_data = none;
        opts = some (("keepLogs", bullmq.Redis.Options.plain 5) ∷ []);
      });
    }
    ∷ []

get_job_schedulers-keep_example :
    (map (λ j. j.key) listed ≡ "a" ∷ [])
    × ((get_job_schedulers json_parser hashes range).1 ≡ "b" ∷ "b:c" ∷ [])
unfolding get_job_schedulers bullmq.JobScheduler.Stored.get_template_from_json
get_job_schedulers-keep_example = get_job_schedulers-keep json_parser hashes range listed refl

-- ===== src/JobScheduler/Stored.antt =====
-- Reading what is stored of schedulers: `transformSchedulerData`, `getSchedulerData` and
-- `getJobSchedulers` of src/classes/job-scheduler.ts.
pub mod Sweeping
use bullmq.Shared.{
  ◌===◌, if◌then◌else◌, Bool, true, false, List, [], ◌∷◌, ◌++◌, Option, none, some, String, codes,
  Dict, get, Outcome, returns, throws,
}
use bullmq.JobScheduler.LegacyKeys.{has_legacy_repeatable_key_shape, legacy_repeatable_job_message}
use bullmq.Redis.Options.{Value, opts_from_json}

-- A text that a test takes for true.
abbrev pub non_empty : Option String → Option String
non_empty none = none
non_empty (some t) = if t === "" then none else some t

pub record TemplateJson (V D : Type 0) : Type 0 where
  pub job_data : Option D
  pub opts : Option (Dict (Value V))

pub record JobSchedulerJson (N V D : Type 0) : Type 0 where
  pub key : String
  pub name : Option String
  pub next : Option N
  pub iteration_count : Option N
  pub limit : Option N
  pub start_date : Option N
  pub end_date : Option N
  pub tz : Option String
  pub pattern : Option String
  pub every : Option N
  pub offset : Option N
  pub template : Option (TemplateJson V D)

-- The runtime: `parseInt` of a text or of undefined, and `JSON.parse` of data and of options,
-- which throws the text of an error.
pub record Parser (N V D : Type 0) : Type 0 where
  pub parse_int : Option String → N
  pub parse_data : String → Outcome String D
  pub parse_opts : String → Outcome String (Dict (Value V))

module _ {N V D : Type 0} (p : Parser N V D) where
  unfoldable pub parsed : Option String → Option N
  parsed field = elim (non_empty field) [ none ↦ none | some t ↦ some (p.parse_int (some t)) ]

  unfoldable pub template_data : Option String → Outcome String (Option D)
  template_data none = returns none
  template_data (some raw) = elim (p.parse_data raw) [
    | returns d ↦ returns (some d)
    | throws e ↦ throws e
  ]

  unfoldable pub template_opts : Option String → Outcome String (Option (Dict (Value V)))
  unfolding opts_from_json
  template_opts none = returns none
  template_opts (some raw) = elim (p.parse_opts raw) [
    | returns o ↦ returns (some (opts_from_json [] o))
    | throws e ↦ throws e
  ]

  -- Both arguments have passed `non_empty`.
  unfoldable pub get_template_from_json :
      Option String → Option String → Outcome String (TemplateJson V D)
  unfolding template_data template_opts
  get_template_from_json raw_data raw_opts = elim (template_data raw_data) [
    | throws e ↦ throws e
    | returns job_data ↦ elim (template_opts raw_opts) [
      | throws e ↦ throws e
      | returns opts ↦ returns (record { job_data = job_data; opts = opts })
    ]
  ]

  abbrev template_of : Option String → Option String → Outcome String (Option (TemplateJson V D))
  template_of none none = returns none
  template_of (some d) o = elim (get_template_from_json (some d) o) [
    | returns t ↦ returns (some t)
    | throws e ↦ throws e
  ]
  template_of none (some o) = elim (get_template_from_json none (some o)) [
    | returns t ↦ returns (some t)
    | throws e ↦ throws e
  ]

  -- What is there for a key, with its template.
  unfoldable pub scheduler_json :
      String → Dict String → Option N → Option (TemplateJson V D) → JobSchedulerJson N V D
  unfolding get parsed
  scheduler_json key fields next template = record {
    key = key;
    name = get "name" fields;
    next = next;
    iteration_count = parsed (get "ic" fields);
    limit = parsed (get "limit" fields);
    start_date = parsed (get "startDate" fields);
    end_date = parsed (get "endDate" fields);
    tz = non_empty (get "tz" fields);
    pattern = non_empty (get "pattern" fields);
    every = parsed (get "every" fields);
    offset = parsed (get "offset" fields);
    template = template;
  }

  -- No fields stand for an empty object and for none.
  unfoldable pub transform_scheduler_data :
      String → Dict String → Option N → Outcome String (Option (JobSchedulerJson N V D))
  unfolding scheduler_json has_legacy_repeatable_key_shape legacy_repeatable_job_message get
  transform_scheduler_data key [] next =
      if has_legacy_repeatable_key_shape (codes key)
      then throws (legacy_repeatable_job_message key)
      else returns none
  transform_scheduler_data key (field ∷ fields) next =
      elim (template_of (non_empty (get "data" (field ∷ fields)))
        (non_empty (get "opts" (field ∷ fields)))) [
          | throws e ↦ throws e
          | returns template ↦ returns (some (scheduler_json key (field ∷ fields) next template))
        ]

  -- The keys that are removed stand beside what is returned or thrown.
  abbrev pub removal : String → Outcome String (Option (JobSchedulerJson N V D)) → List String
  removal key (throws e) = []
  removal key (returns none) = key ∷ []
  removal key (returns (some scheduler)) = []

  -- `Promise.all` with the filter, where the backend answers in the order of the calls: the first
  -- error rejects it, but no call is taken back.
  abbrev pub collect :
      Outcome String (Option (JobSchedulerJson N V D))
      → Outcome String (List (JobSchedulerJson N V D))
      → Outcome String (List (JobSchedulerJson N V D))
  collect (throws e) rest = throws e
  collect (returns none) rest = rest
  collect (returns (some scheduler)) (throws e) = throws e
  collect (returns (some scheduler)) (returns rest) = returns (scheduler ∷ rest)

  -- What is stored for a key is given by `stored`, and the last key may lack its time.
  unfoldable pub get_job_schedulers :
      (String → Dict String)
      → List String
      → Outcome String (List (JobSchedulerJson N V D)) × List String
  unfolding transform_scheduler_data
  get_job_schedulers stored [] = (returns [], [])
  get_job_schedulers stored (key ∷ []) =
      let one = transform_scheduler_data key (stored key) (some (p.parse_int none)) in
      (collect one (returns []), removal key one)
  get_job_schedulers stored (key ∷ next ∷ rest) =
      let one = transform_scheduler_data key (stored key) (some (p.parse_int (some next))) in
      let others = get_job_schedulers stored rest in
      (collect one (others.0), removal key one ++ others.1)

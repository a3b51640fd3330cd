-- ===== src/LockManager.antt =====
-- The class `LockManager` of src/classes/lock-manager.ts, which extends the locks of active jobs.
-- An abort controller is a number, and `aborts` lists the calls of `abort`. A time stamp of 0
-- stands for one that is missing.
pub mod Renewal
pub mod Tracking
use bullmq.Shared.{
  ℕ, zero, suc, ◌+◌, ◌*◌, ◌==◌, ◌===◌, ltb, if◌then◌else◌, not, ◌&&◌, ◌||◌, Bool, true, false, List,
  [], ◌∷◌, ◌++◌, map, Option, none, some, String, length, any, keep, Dict, get, put, delete, keys,
  Outcome, returns, throws,
}

pub record Options : Type 0 where
  pub lock_renew_time : ℕ
  pub lock_duration : ℕ

pub record Tracked : Type 0 where
  pub token : String
  pub ts : ℕ
  pub controller : Option ℕ

pub record LockManager : Type 0 where
  pub opts : Options
  pub tracked : Dict Tracked
  pub closed : Bool
  pub timer : Bool
  pub next_controller : ℕ
  pub aborts : List (ℕ × Option String)

pub data Event : Type 0 where
  lock_renewal_failed : List String → Event
  could_not_renew : String → Event
  locks_renewed : ℕ → List String → Event
  error : String → Event

unfoldable pub new : Options → LockManager
new opts = record {
  opts = opts;
  tracked = [];
  closed = false;
  timer = false;
  next_controller = 0;
  aborts = [];
}

unfoldable pub start_lock_extender_timer : LockManager → LockManager
start_lock_extender_timer m = if m.closed then m else record m { timer = true }

unfoldable pub start : LockManager → LockManager
unfolding start_lock_extender_timer
start m =
    if m.closed then m else if ltb 0 m.opts.lock_renew_time then start_lock_extender_timer m else m

-- `this.trackedJobs.get(id)?.token || ''`.
abbrev pub token_or_empty : Option Tracked → String
token_or_empty none = ""
token_or_empty (some t) = t.token

abbrev includes : List String → String → Bool
includes ids id = any (λ i. i === id) ids

abbrev unless_empty : {A : Type 0} → List A → List Event → List Event
unless_empty [] es = []
unless_empty (x ∷ xs) es = es

-- The events of `extendLocks`, from the answer of `worker.extendJobLocks`: the ids whose locks
-- could not be extended, or an error.
unfoldable pub extend_events : List String → Outcome String (List String) → List Event
extend_events ids (throws e) = error e ∷ []
extend_events ids (returns errored) =
    let succeeded = keep (λ id. not (includes errored id)) ids in
    unless_empty errored (lock_renewal_failed errored ∷ map could_not_renew errored)
    ++ unless_empty succeeded (locks_renewed (length succeeded) succeeded ∷ [])

-- A call of `worker.extendJobLocks`.
pub record Extend : Type 0 where
  pub job_ids : List String
  pub tokens : List String
  pub duration : ℕ

-- `extendLocks` up to its `await`: the call that it makes.
unfoldable pub extend_locks : List String → LockManager → Extend
extend_locks ids m = record {
  job_ids = ids;
  tokens = map (λ id. token_or_empty (get id m.tracked)) ids;
  duration = m.opts.lock_duration;
}

-- `ts + lockRenewTime / 2 < now`, over the exact quotient.
unfoldable pub is_due : ℕ → ℕ → Tracked → Bool
is_due renew now t = ltb (2 * t.ts + renew) (2 * now)

-- The body of the loop for one key.
unfoldable pub renew_key : ℕ → ℕ → String → Dict Tracked × List String → Dict Tracked × List String
unfolding is_due
renew_key renew now id (m, due) = elim (get id m) [
  | none ↦ (m, due)
  | some t ↦
      if t.ts == 0
      then (put id (record t { ts = now }) m, due)
      else if is_due renew now t
      then (put id (record t { ts = now }) m, due ++ id ∷ [])
      else (m, due)
]

unfoldable pub renew_keys :
    ℕ → ℕ → List String → Dict Tracked × List String → Dict Tracked × List String
unfolding renew_key
renew_keys renew now [] s = s
renew_keys renew now (id ∷ ids) s = renew_keys renew now ids (renew_key renew now id s)

-- `if (jobsToExtend.length) await this.extendLocks(jobsToExtend)`, up to the call of the worker;
-- without one the timer is started again.
unfoldable pub send : List String → LockManager → LockManager × Option Extend
unfolding extend_locks start_lock_extender_timer
send [] m = (start_lock_extender_timer m, none)
send (id ∷ ids) m = (m, some (extend_locks (id ∷ ids) m))

-- What the timer does when it fires at `now`, up to the call of the worker.
unfoldable pub fire : ℕ → LockManager → LockManager × Option Extend
unfolding renew_keys send
fire now m =
    let (tracked, due) = renew_keys m.opts.lock_renew_time now (keys m.tracked) (m.tracked, []) in
    send due (record m { tracked = tracked })

-- What it does once the worker has answered.
unfoldable pub settle :
    Extend → Outcome String (List String) → LockManager → LockManager × List Event
unfolding extend_events start_lock_extender_timer
settle call answer m = (start_lock_extender_timer m, extend_events call.job_ids answer)

unfoldable pub close : LockManager → LockManager
close m = if m.closed then m else record m { closed = true; timer = false; tracked = [] }

unfoldable pub track_job : String → String → ℕ → Bool → LockManager → Option ℕ × LockManager
track_job id token ts create m =
    let controller = if create then some m.next_controller else none in
    let created = record m {
      next_controller = if create then suc m.next_controller else m.next_controller;
    } in
    let entry : Tracked = record { token = token; ts = ts; controller = controller } in
    if not m.closed && not (id === "")
    then (controller, record created { tracked = put id entry m.tracked })
    else (controller, created)

unfoldable pub untrack_job : String → LockManager → LockManager
untrack_job id m = record m { tracked = delete id m.tracked }

unfoldable pub get_active_job_count : LockManager → ℕ
get_active_job_count m = length m.tracked

unfoldable pub is_running : LockManager → Bool
is_running m = not m.closed && m.timer

abbrev pub controller_of : Option Tracked → Option ℕ
controller_of none = none
controller_of (some t) = t.controller

unfoldable pub cancel_job : String → Option String → LockManager → Bool × LockManager
cancel_job id reason m = elim (controller_of (get id m.tracked)) [
  | none ↦ (false, m)
  | some c ↦ (true, record m { aborts = m.aborts ++ (c, reason) ∷ [] })
]

abbrev pub abort_of : Option String → Tracked → List (ℕ × Option String)
abort_of reason t = elim t.controller [ none ↦ [] | some c ↦ (c, reason) ∷ [] ]

unfoldable pub aborts_of : Option String → Dict Tracked → List (ℕ × Option String)
aborts_of reason [] = []
aborts_of reason ((id, t) ∷ m) = abort_of reason t ++ aborts_of reason m

unfoldable pub cancel_all_jobs : Option String → LockManager → LockManager
unfolding aborts_of
cancel_all_jobs reason m = record m { aborts = m.aborts ++ aborts_of reason m.tracked }

unfoldable pub get_tracked_job_ids : LockManager → List String
get_tracked_job_ids m = keys m.tracked

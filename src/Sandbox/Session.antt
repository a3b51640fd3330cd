-- ===== src/Sandbox/Session.antt =====
-- `sandbox` of src/classes/sandbox.ts over a child: the calls that take the child from the pool one
-- after the other, and the messages in both directions, which arrive in order.
pub mod Flow
pub mod Messages
pub mod Sound
pub mod Parent
pub mod Results
pub mod Runs
use bullmq.Shared.{
  ℕ, zero, suc, ◌==◌, if◌then◌else◌, Bool, true, false, List, [], ◌∷◌, ◌++◌, Option, none, some,
  String, Outcome, returns, throws,
}
use bullmq.Sandbox.{
  ChildCommand, start, cancel, Value, undefined, plain, failed, message, ChildMessage, JobCall,
  Reaction, resolves, rejects, calls, ignores, react,
}
use bullmq.Sandbox.ChildProcessor.{
  ChildProcessor, Command, Current, nothing, processing, answering, idle, new, sending, settle,
  sent, call_job, time_out, receive,
}

-- Why a call fails: what the child has sent, the end of the process with its code and signal, or a
-- call of the job that fails.
pub data Failure (V : Type 0) : Type 0 where
  remote : Value V → Failure V
  unexpected_exit : Option ℕ → Option String → Failure V
  call_failed : V → Failure V

-- A call of `process`, known by a number, with what its promise has settled to and whether the
-- listener on the signal is attached.
pub record Call (V : Type 0) : Type 0 where
  pub number : ℕ
  pub settled : Option (Outcome (Failure V) (Value V))
  pub can_abort : Bool

-- A call of the job that is not answered yet, and the response that will be sent.
pub record Pending (V : Type 0) : Type 0 where
  pub number : ℕ
  pub reply : Option (ChildCommand × Option String)

-- `processed` is how the `try` block of `start` has ended for each job, with the value that the
-- processor has given and that was sent, or with an error of the processor or of sending, and
-- `job_calls` the calls of the jobs' methods, in order. `free` says that the child is in the pool,
-- and `exited` that its process has ended.
pub record Session (V : Type 0) : Type 0 where
  pub child : ChildProcessor V
  pub to_child : List (Command V)
  pub to_parent : List (ChildMessage V)
  pub free : Bool
  pub exited : Bool
  pub can_release : Bool
  pub call : Option (Call V)
  pub next : ℕ
  pub pending : List (Pending V)
  pub job_calls : List (ℕ × JobCall V)
  pub processed : List (ℕ × Outcome V (Value V))
  pub results : List (ℕ × Outcome (Failure V) (Value V))

pub data Event (V : Type 0) : Type 0 where
  -- A call begins with a token and the reason of a signal that is aborted already.
  begins : Option String → Option (Value V) → Event V
  child_receives sent_back parent_receives finishes : Event V
  processor_ends : Outcome V (Value V) → Event V
  -- The processor gives a value, and sending it fails with an error.
  unsent : Value V → V → Event V
  -- An exception that is not caught in the child. The end of its process is an event of its own.
  crashes : V → Event V
  job_calls : String → JobCall V → Event V
  times_out : String → Event V
  -- The pending call at an index is answered.
  answered : ℕ → Outcome V (Value V) → Event V
  aborts : Value V → Event V
  exits : Option ℕ → Option String → Event V

abbrev is_null : Option ℕ → Option String → Bool
is_null none none = true
is_null none (some signal) = false
is_null (some code) signal = false

module _ {V : Type 0} where
  abbrev pub command : ChildCommand → Option String → Value V → Command V
  command cmd id v = record { cmd = cmd; request_id = id; value = v; job = 0; token = none }

  abbrev is_none : Option (Value V) → Bool
  is_none none = true
  is_none (some reason) = false

  abbrev cancels : Option (Value V) → List (Command V)
  cancels none = []
  cancels (some reason) = command cancel none reason ∷ []

  -- The call up to its wait for the promise.
  abbrev open_call : Option String → Option (Value V) → Option (Call V) → Session V → Session V
  open_call token aborted (some c) s = s
  open_call token aborted none s =
      if s.free
      then record s {
        free = false;
        call = some (record { number = s.next; settled = none; can_abort = is_none aborted });
        next = suc s.next;
        to_child =
            s.to_child
            ++ record {
              cmd = start;
              request_id = none;
              value = undefined;
              job = s.next;
              token = token;
            }
              ∷ cancels aborted;
      }
      else s

  unfoldable pub begin : Option String → Option (Value V) → Session V → Session V
  begin token aborted s = open_call token aborted s.call s

  -- A promise settles once.
  abbrev settled_first :
      Option (Outcome (Failure V) (Value V))
      → Outcome (Failure V) (Value V)
      → Option (Outcome (Failure V) (Value V))
  settled_first none o = some o
  settled_first (some first) o = some first

  abbrev settle_call : Outcome (Failure V) (Value V) → Option (Call V) → Option (Call V)
  settle_call o none = none
  settle_call o (some c) = some (record c { settled = settled_first c.settled o })

  abbrev reacts : Call V → Reaction V → Session V → Session V
  reacts c (resolves v) s = record s { call = settle_call (returns v) (some c) }
  reacts c (rejects e) s = record s { call = settle_call (throws (remote e)) (some c) }
  reacts c ignores s = s
  reacts c (calls call reply) s = record s {
    pending = s.pending ++ record { number = c.number; reply = reply } ∷ [];
    job_calls = s.job_calls ++ (c.number, call) ∷ [];
  }

  -- A message goes to the handler of the call, if there is one.
  abbrev handle : Option (Call V) → ChildMessage V → Session V → Session V
  handle none m s = s
  handle (some c) m s = reacts c (react m) s

  abbrev deliver : List (ChildMessage V) → Session V → Session V
  deliver [] s = s
  deliver (m ∷ rest) s = handle s.call m (record s { to_parent = rest })

  unfoldable pub parent_receive : Session V → Session V
  unfolding react
  parent_receive s = deliver s.to_parent s

  -- What a step of the child sends.
  abbrev sends : ChildProcessor V × List (ChildMessage V) → Session V → Session V
  sends (p, ms) s = record s { child = p; to_parent = s.to_parent ++ ms }

  abbrev deliver_to_child : V → List (Command V) → Session V → Session V
  deliver_to_child refusal [] s = s
  deliver_to_child refusal (m ∷ rest) s =
      sends (receive refusal m s.child) (record s { to_child = rest })

  unfoldable pub child_receive : V → Session V → Session V
  unfolding receive
  child_receive refusal s = deliver_to_child refusal s.to_child s

  abbrev responses_of : Option (ChildCommand × Option String) → Value V → List (Command V)
  responses_of none v = []
  responses_of (some (cmd, id)) v = command cmd id v ∷ []

  -- The rest of the handler for a pending call: a failure rejects the promise of its own call.
  abbrev fails : Pending V → V → Option (Call V) → Option (Call V)
  fails p e none = none
  fails p e (some c) =
      if c.number == p.number then settle_call (throws (call_failed e)) (some c) else some c

  abbrev resume : Pending V → Outcome V (Value V) → Session V → Session V
  resume p (returns v) s = record s { to_child = s.to_child ++ responses_of p.reply v }
  resume p (throws e) s = record s { call = fails p e s.call }

  abbrev pub take_at : ℕ → List (Pending V) → Option (Pending V × List (Pending V))
  take_at n [] = none
  take_at zero (p ∷ ps) = some (p, ps)
  take_at (suc n) (p ∷ ps) = elim (take_at n ps) [ none ↦ none | some (q, qs) ↦ some (q, p ∷ qs) ]

  unfoldable pub answer_call : ℕ → Outcome V (Value V) → Session V → Session V
  answer_call n o s = elim (take_at n s.pending) [
    | none ↦ s
    | some (p, ps) ↦ resume p o (record s { pending = ps })
  ]

  -- The handler of `abort`, which is called once.
  abbrev abort_in : Value V → Option (Call V) → Session V → Session V
  abort_in reason none s = s
  abort_in reason (some c) s =
      if c.can_abort
      then record s {
        call = some (record c { can_abort = false });
        to_child = s.to_child ++ command cancel none reason ∷ [];
      }
      else s

  unfoldable pub abort : Value V → Session V → Session V
  abort reason s = abort_in reason s.call s

  -- The process ends: no message is read any more, on either side.
  unfoldable pub exit : Option ℕ → Option String → Session V → Session V
  exit code signal s = record s {
    exited = true;
    can_release = is_null code signal;
    to_child = [];
    to_parent = [];
    call = settle_call (throws (unexpected_exit code signal)) s.call;
  }

  -- The `finally`: the listeners go, and the child returns to the pool if it has not ended.
  abbrev close_in : Call V → Option (Outcome (Failure V) (Value V)) → Session V → Session V
  close_in c none s = s
  close_in c (some o) s = record s {
    call = none;
    free = s.can_release;
    results = s.results ++ (c.number, o) ∷ [];
  }

  abbrev finish_in : Option (Call V) → Session V → Session V
  finish_in none s = s
  finish_in (some c) s = close_in c c.settled s

  unfoldable pub finish : Session V → Session V
  finish s = finish_in s.call s

  abbrev keeps_result : Session V → Outcome V (Value V) → Current → List (ℕ × Outcome V (Value V))
  keeps_result s o nothing = s.processed
  keeps_result s o answering = s.processed
  keeps_result s o (processing j t) = s.processed ++ (j, o) ∷ []

  unfoldable pub processor_end : Outcome V (Value V) → Session V → Session V
  unfolding settle
  processor_end o s =
      sends (settle o s.child) (record s { processed = keeps_result s o s.child.current })

  -- The handler of `uncaughtException`, up to the end of the process.
  unfoldable pub crash : V → Session V → Session V
  crash e s = record s { to_parent = s.to_parent ++ message failed none (plain e) ∷ [] }

  -- What can still happen after the end of the process, and before it.
  abbrev after_exit : Event V → Session V → Session V
  after_exit finishes s = finish s
  after_exit (answered n o) s = answer_call n o s
  after_exit (begins t a) s = s
  after_exit child_receives s = s
  after_exit sent_back s = s
  after_exit parent_receives s = s
  after_exit (processor_ends o) s = s
  after_exit (unsent v e) s = s
  after_exit (crashes e) s = s
  after_exit (job_calls id c) s = s
  after_exit (times_out id) s = s
  after_exit (aborts r) s = s
  after_exit (exits c g) s = s

  abbrev live : V → Event V → Session V → Session V
  live refusal (begins t a) s = begin t a s
  live refusal child_receives s = child_receive refusal s
  live refusal (processor_ends o) s = processor_end o s
  live refusal (unsent v e) s = processor_end (sending v (some e)) s
  live refusal (crashes e) s = crash e s
  live refusal sent_back s = record s { child = sent s.child }
  live refusal (job_calls id c) s = sends (call_job id c s.child) s
  live refusal (times_out id) s = record s { child = time_out id s.child }
  live refusal parent_receives s = parent_receive s
  live refusal (answered n o) s = answer_call n o s
  live refusal (aborts r) s = abort r s
  live refusal (exits c g) s = exit c g s
  live refusal finishes s = finish s

  unfoldable pub step : V → Event V → Session V → Session V
  unfolding begin child_receive processor_end crash sent call_job time_out parent_receive
      answer_call abort exit finish
  step refusal e s = if s.exited then after_exit e s else live refusal e s

  unfoldable pub run : V → List (Event V) → Session V → Session V
  unfolding step
  run refusal [] s = s
  run refusal (e ∷ es) s = run refusal es (step refusal e s)

  -- An initialized child in the pool.
  unfoldable pub fresh : Session V
  fresh = record {
    child = record new { status = some idle };
    to_child = [];
    to_parent = [];
    free = true;
    exited = false;
    can_release = true;
    call = none;
    next = 0;
    pending = [];
    job_calls = [];
    processed = [];
    results = [];
  }

-- ===== src/Sandbox/Child.antt =====
-- The class `Child` of src/classes/child.ts: how its initialization settles, which signals `kill`
-- sends, and the arguments of its process. Processes, ports and timers are the environment's; an
-- argument is the list of its codes.
use bullmq.Shared.{
  ℕ, suc, ◌-◌, ◌==◌, ltb, if◌then◌else◌, ◌&&◌, ◌||◌, Bool, true, false, List, [], ◌∷◌, ◌++◌, Option,
  none, some, String, codes,
}
use bullmq.Sandbox.{
  ParentCommand, completed, failed, error, progress, log, move_to_delayed, move_to_wait, update,
  get_children_values, get_ignored_children_failures, get_dependencies_count,
  move_to_waiting_children, get_dependencies, init_failed, init_completed, Value,
}

-- `exitCodesErrors`.
unfoldable pub exit_codes_errors : ℕ → Option String
exit_codes_errors code =
    if code == 1
    then some "Uncaught Fatal Exception"
    else if code == 2
    then some "Unused"
    else if code == 3
    then some "Internal JavaScript Parse Error"
    else if code == 4
    then some "Internal JavaScript Evaluation Failure"
    else if code == 5
    then some "Fatal Error"
    else if code == 6
    then some "Non-function Internal Exception Handler"
    else if code == 7
    then some "Internal Exception Handler Run-Time Failure"
    else if code == 8
    then some "Unused"
    else if code == 9
    then some "Invalid Argument"
    else if code == 10
    then some "Internal JavaScript Run-Time Failure"
    else if code == 12
    then some "Invalid Debug Argument"
    else if code == 13
    then some "Unfinished Top-Level Await"
    else none

-- How `onComplete` settles: by the error that the child has sent, or by the close of the process
-- with a code, its message if it is known, and the signal.
pub data InitState (V : Type 0) : Type 0 where
  waiting completes stays_open : InitState V
  fails_with : Value V → InitState V
  closed_with : ℕ → Option String → Option ℕ → InitState V

pub data InitEvent (V : Type 0) : Type 0 where
  -- A message, whose command may be unknown.
  message : Option ParentCommand → Value V → InitEvent V
  close : ℕ → Option ℕ → InitEvent V

-- A code above 128 stands for a signal.
abbrev pub exit_code : ℕ → ℕ
exit_code code = if ltb 128 code then code - 128 else code

module _ {V : Type 0} where
  -- The handlers go off with the first message of a known command, whatever it is.
  abbrev on_init_message : ParentCommand → Value V → InitState V
  on_init_message init_completed err = completes
  on_init_message init_failed err = fails_with err
  on_init_message completed err = stays_open
  on_init_message failed err = stays_open
  on_init_message error err = stays_open
  on_init_message progress err = stays_open
  on_init_message log err = stays_open
  on_init_message move_to_delayed err = stays_open
  on_init_message move_to_wait err = stays_open
  on_init_message update err = stays_open
  on_init_message get_children_values err = stays_open
  on_init_message get_ignored_children_failures err = stays_open
  on_init_message get_dependencies_count err = stays_open
  on_init_message move_to_waiting_children err = stays_open
  on_init_message get_dependencies err = stays_open

  unfoldable pub on_init_event : InitEvent V → InitState V
  unfolding exit_codes_errors
  on_init_event (message none err) = waiting
  on_init_event (message (some cmd) err) = on_init_message cmd err
  on_init_event (close code signal) =
      closed_with (exit_code code) (exit_codes_errors (exit_code code)) signal

  abbrev next_state : InitState V → InitEvent V → InitState V
  next_state waiting e = on_init_event e
  next_state completes e = completes
  next_state stays_open e = stays_open
  next_state (fails_with err) e = fails_with err
  next_state (closed_with code text signal) e = closed_with code text signal

  -- What has become of the initialization after some events.
  unfoldable pub init_child : InitState V → List (InitEvent V) → InitState V
  unfolding on_init_event
  init_child st [] = st
  init_child st (e ∷ es) = init_child (next_state st e) es

-- The fields that the `exit` event of the process sets.
pub record Exit : Type 0 where
  pub exit_code : Option ℕ
  pub signal_code : Option String
  pub killed : Bool

unfoldable pub on_exit : Option ℕ → Option String → Exit → Exit
on_exit code signal x = record { exit_code = code; signal_code = signal; killed = true }

abbrev is_set : Option ℕ → Option String → Bool
is_set none none = false
is_set none (some signal) = true
is_set (some code) signal = true

unfoldable pub has_process_exited : Exit → Bool
has_process_exited x = is_set x.exit_code x.signal_code

pub data Signal : Type 0 where
  sigterm sigkill : Signal

-- The time-out of `kill`, if it is given.
pub data Timeout : Type 0 where
  never : Timeout
  after : ℕ → Timeout

-- The signals that `kill` sends, `later` being the state when the time-out is over.
unfoldable pub kill : Signal → Option Timeout → Exit → Exit → List Signal
unfolding has_process_exited
kill signal none now later = if has_process_exited now then [] else signal ∷ []
kill signal (some never) now later = if has_process_exited now then [] else signal ∷ []
kill signal (some (after ms)) now later =
    if has_process_exited now
    then []
    else signal ∷ (if has_process_exited later then [] else sigkill ∷ [])

abbrev starts_with : List ℕ → List ℕ → Bool
starts_with [] key = true
starts_with (c ∷ cs) [] = false
starts_with (c ∷ cs) (k ∷ ks) = (c == k) && starts_with cs ks

-- Whether `key.indexOf(part)` is not -1.
abbrev includes : List ℕ → List ℕ → Bool
includes part [] = starts_with part []
includes part (k ∷ ks) = starts_with part (k ∷ ks) || includes part ks

-- `arg.split('=')[0]`.
abbrev up_to_equals : List ℕ → List ℕ
up_to_equals [] = []
up_to_equals (c ∷ cs) = let rest = up_to_equals cs in if c == b'=' then [] else c ∷ rest

-- The loop of `convertExecArgv`, where the i-th free port that is asked for is `port i`.
unfoldable pub convert_loop :
    (ℕ → List ℕ) → ℕ → List (List ℕ) → List (List ℕ) → List (List ℕ) → List (List ℕ)
convert_loop port i standard converted [] = standard ++ converted
convert_loop port i standard converted (arg ∷ args) =
    let inspects = includes (codes "--inspect") arg in
    convert_loop port (if inspects then suc i else i)
      (if inspects then standard else standard ++ arg ∷ [])
      (if inspects then converted ++ (up_to_equals arg ++ codes "=" ++ port i) ∷ [] else converted)
      args

unfoldable pub convert_exec_argv : (ℕ → List ℕ) → List (List ℕ) → List (List ℕ)
unfolding convert_loop
convert_exec_argv port args = convert_loop port 0 [] [] args

-- ===== src/Worker/Lifecycle.antt =====
-- `run`, `pause`, `resume` and `close` of src/classes/worker.ts, with the stalled checker, as steps
-- between two points where a call waits. The numbers count calls that are under way: of `run`
-- before its main loop, main loops, and stalled checkers.
pub mod Single
use bullmq.Shared.{
  ◌≡◌, ℕ, suc, ◌+◌, ◌-◌, ◌==◌, ltb, if◌then◌else◌, not, ◌&&◌, ◌||◌, Bool, true, false, List, [],
  ◌∷◌, ◌++◌, Option, none, some, String, Fraction, is_positive, is_negative, Outcome, returns,
  throws, throw_if, ◌>>◌, ◌≡◌,
}
use bullmq.LockManager
use bullmq.LockManager.{LockManager}

pub data Event : Type 0 where
  paused_event resumed_event closing_event closed_event : Event

pub record Life : Type 0 where
  pub has_process_fn : Bool
  pub skip_lock_renewal : Bool
  pub skip_stalled_check : Bool
  pub running : Bool
  pub paused : Bool
  pub closing : Bool
  pub closed : Bool
  pub stalled_checker_running : Bool
  pub locks : LockManager
  pub starting : ℕ
  pub main_loops : ℕ
  pub checkers : ℕ
  pub emitted : List Event

abbrev pub emit : Event → Life → Life
emit e w = record w { emitted = w.emitted ++ e ∷ [] }

-- `startStalledCheckTimer`.
unfoldable pub start_stalled_check_timer : Life → Life
start_stalled_check_timer w =
    if not w.skip_stalled_check && not w.closing && not w.stalled_checker_running
    then record w { stalled_checker_running = true; checkers = w.checkers + 1 }
    else w

-- The `while` loop of `stalledChecker`, at its condition: it goes on, or ends. A checker is counted
-- until `finally` has reset the flag, which is the same step here as the end of the loop.
unfoldable pub stalled_checker : Life → Life
stalled_checker w =
    if w.closing || w.paused
    then record w { stalled_checker_running = false; checkers = w.checkers - 1 }
    else w

-- `run` up to the wait for the stalled checker's start.
unfoldable pub run : Life → Outcome String (Unit {0}) × Life
unfolding start_stalled_check_timer
run w =
    if not w.has_process_fn
    then (throws "No process function is defined.", w)
    else if w.running
    then (throws "Worker is already running.", w)
    else if w.closing || w.paused
    then (returns tt, record w { running = false })
    else (
      returns tt,
      start_stalled_check_timer (record w { running = true; starting = w.starting + 1 }),
    )

-- `run` from there to the wait for the main loop.
unfoldable pub run_loop : Life → Life
run_loop w = record w {
  locks = if w.skip_lock_renewal then w.locks else LockManager.start w.locks;
  starting = w.starting - 1;
  main_loops = w.main_loops + 1;
}

-- The end of the main loop, and of `run`.
unfoldable pub end_run : Life → Life
end_run w = record w { main_loops = w.main_loops - 1; running = false }

-- `pause`, up to the wait for the current jobs; and what follows it.
unfoldable pub pause : Life → Life
pause w = record w { paused = true }

unfoldable pub after_pause : Life → Life
after_pause w = emit paused_event w

unfoldable pub resume : Life → Life
unfolding run start_stalled_check_timer
resume w =
    let on = record w { paused = false } in
    if not w.running || w.paused
    then emit resumed_event (
        if not on.running
        then if on.has_process_fn then (run on).1 else on
        else start_stalled_check_timer on)
    else w

-- `close` up to its first wait; the closing of the lock manager; and its end.
unfoldable pub close : Life → Life
close w = if w.closing then w else emit closing_event (record w { closing = true })

unfoldable pub close_locks : Life → Life
close_locks w = record w { locks = LockManager.close w.locks }

unfoldable pub after_close : Life → Life
after_close w = emit closed_event (record w { closed = true })

-- A call, or what continues one that is under way.
pub data Step : Life → Life → Type 0 where
  runs : (w : Life) → Step w (run w).1
  loops : (w : Life) → ltb 0 w.starting ≡ true → Step w (run_loop w)
  ends : (w : Life) → ltb 0 w.main_loops ≡ true → Step w (end_run w)
  checks : (w : Life) → ltb 0 w.checkers ≡ true → Step w (stalled_checker w)
  starts_check : (w : Life) → Step w (start_stalled_check_timer w)
  pauses : (w : Life) → w.paused ≡ false → Step w (pause w)
  has_paused : (w : Life) → Step w (after_pause w)
  resumes : (w : Life) → Step w (resume w)
  closes : (w : Life) → Step w (close w)
  closes_locks : (w : Life) → w.closing ≡ true → Step w (close_locks w)
  has_closed : (w : Life) → w.closing ≡ true → Step w (after_close w)

pub data Reaches (w : Life) : Life → Type 0 where
  here : Reaches w w
  onward : (u v : Life) → Reaches w u → Step u v → Reaches w v

-- A worker that was constructed.
unfoldable pub start : Bool → Bool → Bool → LockManager.Options → Life
start has_process_fn skip_lock_renewal skip_stalled_check opts = record {
  has_process_fn = has_process_fn;
  skip_lock_renewal = skip_lock_renewal;
  skip_stalled_check = skip_stalled_check;
  running = false;
  paused = false;
  closing = false;
  closed = false;
  stalled_checker_running = false;
  locks = LockManager.new opts;
  starting = 0;
  main_loops = 0;
  checkers = 0;
  emitted = [];
}

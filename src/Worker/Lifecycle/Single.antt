-- ===== src/Worker/Lifecycle/Single.antt =====
-- How many main loops and stalled checkers a worker of src/classes/worker.ts has.
use bullmq.Shared.{ℕ, ◌+◌, if◌then◌else◌, Bool, ◌≡◌, refl, arith}
use bullmq.LockManager
use bullmq.Worker.Lifecycle.{
  Life, start_stalled_check_timer, stalled_checker, run, run_loop, end_run, pause, after_pause,
  resume, close, close_locks, after_close, Step, runs, loops, ends, checks, starts_check, pauses,
  has_paused, resumes, closes, closes_locks, has_closed, Reaches, here, onward, start,
}

-- How many there are of what a flag says there is one of.
abbrev one_if : Bool → ℕ
one_if b = if b then 1 else 0

record IsSound (w : Life) : Type 0 where
  loop : w.starting + w.main_loops ≡ one_if w.running
  checker : w.checkers ≡ one_if w.stalled_checker_running

start_stalled-IsSound : (w : Life) → IsSound w → IsSound (start_stalled_check_timer w)
unfolding start_stalled_check_timer
start_stalled-IsSound w h = record {
  loop = ground (arith, h.loop);
  checker = ground (arith, h.checker);
}

run-IsSound : (w : Life) → IsSound w → IsSound (run w).1
unfolding run start_stalled_check_timer
run-IsSound w h = record { loop = ground (arith, h.loop); checker = ground (arith, h.checker) }

resume-IsSound : (w : Life) → IsSound w → IsSound (resume w)
unfolding resume run start_stalled_check_timer
resume-IsSound w h = record { loop = ground (arith, h.loop); checker = ground (arith, h.checker) }

Step-IsSound : (u v : Life) → Step u v → IsSound u → IsSound v
unfolding run_loop end_run stalled_checker pause after_pause close close_locks after_close
Step-IsSound _ _ (runs w) h = run-IsSound w h
Step-IsSound _ _ (loops w e) h = record { loop = ground (arith, e, h.loop); checker = h.checker }
Step-IsSound _ _ (ends w e) h = record { loop = ground (arith, e, h.loop); checker = h.checker }
Step-IsSound _ _ (checks w e) h = record {
  loop = ground (arith, h.loop);
  checker = ground (arith, e, h.checker);
}
Step-IsSound _ _ (starts_check w) h = start_stalled-IsSound w h
Step-IsSound _ _ (pauses w e) h = record { loop = h.loop; checker = h.checker }
Step-IsSound _ _ (has_paused w) h = record { loop = h.loop; checker = h.checker }
Step-IsSound _ _ (resumes w) h = resume-IsSound w h
Step-IsSound _ _ (closes w) h = record {
  loop = ground (arith, h.loop);
  checker = ground (arith, h.checker);
}
Step-IsSound _ _ (closes_locks w e) h = record { loop = h.loop; checker = h.checker }
Step-IsSound _ _ (has_closed w e) h = record { loop = h.loop; checker = h.checker }

Reaches-IsSound : (u v : Life) → Reaches u v → IsSound u → IsSound v
Reaches-IsSound u _ here h = h
Reaches-IsSound u _ (onward m n r s) h = Step-IsSound m n s (Reaches-IsSound u m r h)

start-IsSound :
    (has_process_fn skip_lock_renewal skip_stalled_check : Bool) (opts : LockManager.Options)
    → IsSound (start has_process_fn skip_lock_renewal skip_stalled_check opts)
unfolding start
start-IsSound has_process_fn skip_lock_renewal skip_stalled_check opts = record {
  loop = omega arith;
  checker = refl;
}

-- However the calls of `run`, `pause`, `resume` and `close` interleave: there is at most one main
-- loop, one that is about to start included, and it is there exactly while `running` is set; and
-- there is at most one stalled checker, exactly while `stalledCheckerRunning` is set.
pub one_main_loop :
    (has_process_fn skip_lock_renewal skip_stalled_check : Bool) (opts : LockManager.Options)
    (w : Life)
    → Reaches (start has_process_fn skip_lock_renewal skip_stalled_check opts) w
    → (w.starting + w.main_loops ≡ (if w.running then 1 else 0))
      × (w.checkers ≡ (if w.stalled_checker_running then 1 else 0))
one_main_loop has_process_fn skip_lock_renewal skip_stalled_check opts w r =
    let h =
      Reaches-IsSound _ w r
        (start-IsSound has_process_fn skip_lock_renewal skip_stalled_check opts) in
    (h.loop, h.checker)

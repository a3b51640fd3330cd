-- ===== src/Tests/LockManager.antt =====
-- Runs of the lock manager of src/classes/lock-manager.ts.
use bullmq.Shared.{
  ℕ, ◌≡◌, refl, Bool, true, false, List, [], ◌∷◌, ◌++◌, map, keep, Option, none, some, String,
  Outcome, returns, get, keys, Dict,
}
use bullmq.LockManager.{LockManager, Options, Tracked, Extend, new, fire}
use bullmq.LockManager.Renewal.{refreshed, extends, ids_of, tokens_of, token_in, fire-extends_due}
use bullmq.LockManager.Tracking.{
  Op, starts, fires, closes, tracks, untracks, run, IsSound, run-new-IsSound, closed_for_good,
}

abbrev opts : Options
opts = record { lock_renew_time = 100; lock_duration = 200 }

abbrev calls : List Op
calls =
    starts ∷ tracks "a" "t1" 1000 true ∷ tracks "b" "t2" 1080 false ∷ tracks "c" "t3" 0 false ∷ []

abbrev entry : String → ℕ → Option ℕ → Tracked
entry token ts controller = record { token = token; ts = ts; controller = controller }

abbrev managed : LockManager
managed = record {
  opts = opts;
  tracked =
      ("a", entry "t1" 1000 (some 0)) ∷ ("b", entry "t2" 1080 none) ∷ ("c", entry "t3" 0 none) ∷ [];
  closed = false;
  timer = true;
  next_controller = 1;
  aborts = [];
}

managed_lem : run calls (new opts) ≡ managed
unfolding run new bullmq.LockManager.Tracking.step bullmq.LockManager.track_job
    bullmq.LockManager.start bullmq.Shared.put
managed_lem = refl

extends_the_old_lock : ids_of (fire 1090 managed).1 ≡ "a" ∷ []
unfolding fire keys get bullmq.Shared.put
extends_the_old_lock = refl

fire-extends_due_example :
    let due = keep (λ id. extends 100 1090 (get id managed.tracked)) (keys managed.tracked) in
    let (m', call) = fire 1090 managed in
    ((id : String) → get id m'.tracked ≡ refreshed 100 1090 (get id managed.tracked))
    × (ids_of call ≡ due)
    × (tokens_of call ≡ map (token_in managed.tracked) due)
unfolding keys
fire-extends_due_example = fire-extends_due 1090 managed (refl, (refl, (refl, tt)))

closed_for_good_example :
    let m = run (calls ++ closes ∷ tracks "d" "t4" 5 false ∷ fires 2000 ∷ []) (new opts) in
    (m.closed ≡ true) × (m.tracked ≡ []) × (m.timer ≡ false)
closed_for_good_example = closed_for_good opts calls (tracks "d" "t4" 5 false ∷ fires 2000 ∷ [])

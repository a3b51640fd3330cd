-- ===== src/LockManager/Tracking.antt =====
-- What the class `LockManager` of src/classes/lock-manager.ts tracks over a row of calls.
use bullmq.Shared.{
  ℕ, ◌==◌, ◌===◌, not, ◌&&◌, Bool, true, false, List, [], ◌∷◌, ◌++◌, Option, String, Dict, get,
  delete, keys, IsDistinct, put-IsDistinct, delete-IsDistinct, Outcome, ◌≡◌, refl, ap, ◌∙◌, arith,
  Bool-cases, Option-cases, inl, inr,
}
use bullmq.LockManager.{
  LockManager, Options, Tracked, Extend, new, start, renew_key, renew_keys, send, fire, is_due,
  settle, close, track_job, untrack_job, cancel_job, cancel_all_jobs, controller_of,
}

-- The calls, and the two halves of what the timer does.
pub data Op : Type 0 where
  starts : Op
  fires : ℕ → Op
  settles : Extend → Outcome String (List String) → Op
  closes : Op
  tracks : (id token : String) (ts : ℕ) (create : Bool) → Op
  untracks : String → Op
  cancels : String → Option String → Op
  cancels_all : Option String → Op

unfoldable pub step : Op → LockManager → LockManager
step starts m = start m
step (fires now) m = (fire now m).0
step (settles call answer) m = (settle call answer m).0
step closes m = close m
step (tracks id token ts create) m = (track_job id token ts create m).1
step (untracks id) m = untrack_job id m
step (cancels id reason) m = (cancel_job id reason m).1
step (cancels_all reason) m = cancel_all_jobs reason m

unfoldable pub run : List Op → LockManager → LockManager
run [] m = m
run (op ∷ ops) m = run ops (step op m)

-- The ids are distinct, and a closed manager tracks nothing and has no timer.
pub record IsSound (m : LockManager) : Type 0 where
  pub distinct : IsDistinct (keys m.tracked)
  pub idle : m.closed ≡ true → (m.tracked ≡ []) × (m.timer ≡ false)

renew_key-IsDistinct :
    (renew now : ℕ) (id : String) (s : Dict Tracked × List String)
    → IsDistinct (keys s.0)
    → IsDistinct (keys (renew_key renew now id s).0)
unfolding renew_key
renew_key-IsDistinct renew now id (m, due) h = elim (Option-cases (get id m)) [
  | inl e ↦ rw (e, renew_key) h
  | inr (t, e) ↦
      rw (e, renew_key)
        (elim (Bool-cases (t.ts == 0)) [
          | inl zeroed ↦ rw zeroed (put-IsDistinct id _ m h)
          | inr stamped ↦ elim (Bool-cases (is_due renew now t)) [
            | inl due ↦ rw (stamped, due) (put-IsDistinct id _ m h)
            | inr fresh ↦ rw (stamped, fresh) h
          ]
        ])
]

renew_keys-IsDistinct :
    (renew now : ℕ) (ids : List String) (s : Dict Tracked × List String)
    → IsDistinct (keys s.0)
    → IsDistinct (keys (renew_keys renew now ids s).0)
unfolding renew_keys
renew_keys-IsDistinct renew now [] s h = h
renew_keys-IsDistinct renew now (id ∷ ids) s h =
    renew_keys-IsDistinct renew now ids (renew_key renew now id s)
      (renew_key-IsDistinct renew now id s h)

-- Timers are started by managers that are not closed only.
send-IsSound : (due : List String) (m : LockManager) → IsSound m → IsSound (send due m).0
unfolding send
send-IsSound [] m h = record { distinct = ground (arith, h.distinct); idle = ground arith }
send-IsSound (id ∷ ids) m h = h

renew_keys_nil :
    (renew now : ℕ) (m : Dict Tracked) → m ≡ [] → (renew_keys renew now (keys m) (m, [])).0 ≡ []
unfolding renew_keys keys
renew_keys_nil renew now m e = rw e

fire-IsSound : (now : ℕ) (m : LockManager) → IsSound m → IsSound (fire now m).0
unfolding fire
fire-IsSound now m h =
    let renew = m.opts.lock_renew_time in
    let r = renew_keys renew now (keys m.tracked) (m.tracked, []) in
    send-IsSound r.1 (record m { tracked = r.0 })
      (record {
        distinct = renew_keys-IsDistinct renew now (keys m.tracked) (m.tracked, []) h.distinct;
        idle = λ e.
            let (nothing, stopped) = h.idle e in
            (renew_keys_nil renew now m.tracked nothing, stopped);
      })

close-IsSound : (m : LockManager) → IsSound m → IsSound (close m)
unfolding close keys
close-IsSound m h = elim (Bool-cases m.closed) [
  | inl shut ↦ rw (shut, close) (record { distinct = h.distinct; idle = λ e. h.idle shut })
  | inr live ↦ rw (live, close) (record { distinct = tt; idle = λ e. (refl, refl) })
]

track_job-IsSound :
    (id token : String) (ts : ℕ) (create : Bool) (m : LockManager)
    → IsSound m
    → IsSound (track_job id token ts create m).1
unfolding track_job
track_job-IsSound id token ts create m h = elim (Bool-cases (not m.closed && not (id === ""))) [
  | inl open_ ↦
      rw open_ (record { distinct = put-IsDistinct id _ m.tracked h.distinct; idle = ground arith })
  | inr shut ↦ rw shut (record { distinct = h.distinct; idle = h.idle })
]

cancel_job-IsSound :
    (id : String) (reason : Option String) (m : LockManager)
    → IsSound m
    → IsSound (cancel_job id reason m).1
unfolding cancel_job
cancel_job-IsSound id reason m h = elim (Option-cases (controller_of (get id m.tracked))) [
  | inl e ↦ rw (e, cancel_job) h
  | inr (c, e) ↦ rw (e, cancel_job) (record { distinct = h.distinct; idle = h.idle })
]

step-IsSound : (op : Op) (m : LockManager) → IsSound m → IsSound (step op m)
unfolding step start settle close untrack_job cancel_all_jobs
step-IsSound starts m h = record { distinct = ground (arith, h.distinct); idle = ground arith }
step-IsSound (fires now) m h = fire-IsSound now m h
step-IsSound (settles call answer) m h = record {
  distinct = ground (arith, h.distinct);
  idle = ground arith;
}
step-IsSound closes m h = close-IsSound m h
step-IsSound (tracks id token ts create) m h = track_job-IsSound id token ts create m h
step-IsSound (untracks id) m h = record {
  distinct = delete-IsDistinct id m.tracked h.distinct;
  idle = λ e. let (nothing, stopped) = h.idle e in (rw nothing (unfold delete in refl), stopped);
}
step-IsSound (cancels id reason) m h = cancel_job-IsSound id reason m h
step-IsSound (cancels_all reason) m h = record { distinct = h.distinct; idle = h.idle }

run-IsSound : (ops : List Op) (m : LockManager) → IsSound m → IsSound (run ops m)
unfolding run
run-IsSound [] m h = h
run-IsSound (op ∷ ops) m h = run-IsSound ops (step op m) (step-IsSound op m h)

new-IsSound : (opts : Options) → IsSound (new opts)
unfolding new keys
new-IsSound opts = record { distinct = tt; idle = λ e. (refl, refl) }

send_closed : (due : List String) (m : LockManager) → (send due m).0.closed ≡ m.closed
unfolding send
send_closed [] m = ground arith
send_closed (id ∷ ids) m = refl

step_closed : (op : Op) (m : LockManager) → m.closed ≡ true → (step op m).closed ≡ true
unfolding step start fire settle close track_job untrack_job cancel_job cancel_all_jobs
step_closed (fires now) m h = send_closed _ _ ∙ h
step_closed (cancels id reason) m h = ground arith
step_closed op m h = ground arith

close_closed : (m : LockManager) → (close m).closed ≡ true
unfolding close
close_closed m = ground arith

run_closed : (ops : List Op) (m : LockManager) → m.closed ≡ true → (run ops m).closed ≡ true
unfolding run
run_closed [] m h = h
run_closed (op ∷ ops) m h = run_closed ops (step op m) (step_closed op m h)

run-append : (xs ys : List Op) (m : LockManager) → run (xs ++ ys) m ≡ run ys (run xs m)
unfolding run
run-append [] ys m = refl
run-append (x ∷ xs) ys m = run-append xs ys (step x m)

-- After any calls and timer events the ids of the tracked jobs are distinct, and a manager that is
-- closed tracks nothing and has no timer.
pub run-new-IsSound : (opts : Options) (ops : List Op) → IsSound (run ops (new opts))
run-new-IsSound opts ops = run-IsSound ops (new opts) (new-IsSound opts)

-- From a `close` on, whatever calls and timer events came before and come after, among them ticks
-- that were under way, the manager stays closed, tracks no job and has no timer.
pub closed_for_good :
    (opts : Options) (before after : List Op)
    → let m = run (before ++ closes ∷ after) (new opts) in
      (m.closed ≡ true) × (m.tracked ≡ []) × (m.timer ≡ false)
unfolding run step
closed_for_good opts before after =
    let m = run before (new opts) in
    let shut = run-append before (closes ∷ after) (new opts) in
    let closed =
      ap (λ (x : LockManager). x.closed) shut ∙ run_closed after (close m) (close_closed m) in
    let sound = run-new-IsSound opts (before ++ closes ∷ after) in
    (closed, (sound.idle closed).0, (sound.idle closed).1)

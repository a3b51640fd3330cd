-- ===== src/Tests/Sandbox.antt =====
-- Runs of the models of src/classes/sandbox.ts, src/classes/child-processor.ts and
-- src/classes/child.ts. JSON values are numbers, and 99 is the error of a child that is not idle.
use bullmq.Shared.{
  ℕ, ◌≡◌, refl, false, arith, List, [], ◌∷◌, map, none, some, codes, All, Outcome, returns, throws,
}
use bullmq.Sandbox.{
  ChildCommand, get_dependencies_response, Value, undefined, null, plain, update_progress,
  list_dependencies, JobCall, calls, react, wrap_job, waits, init_completed, init_failed, progress,
}
use bullmq.Sandbox.Child.{
  InitEvent, waiting, closed_with, message, close, init_child, sigterm, sigkill, after, kill,
  convert_exec_argv,
}
use bullmq.Sandbox.ChildProcessor.{or_null}
use bullmq.Sandbox.Session.{
  Event, call_failed, begins, child_receives, sent_back, parent_receives, finishes, processor_ends,
  unsent, crashes, job_calls, answered, aborts, exits, remote, run, fresh,
}
use bullmq.Sandbox.Session.Flow.{IsExplained, outcome_of}
use bullmq.Sandbox.Session.Results.{run-IsExplained}
use bullmq.Sandbox.Session.Runs.{turns, numbered, turns-results, stale_result}

abbrev listing : JobCall ℕ
listing = list_dependencies (plain 3)

-- A job that reports its progress and ends; a second one starts before the child is idle, a third
-- one gives a value that cannot be sent, and a fourth one is under way when the process ends.
abbrev events : List (Event ℕ)
events =
    begins none none
    ∷ child_receives
    ∷ job_calls "id" (update_progress (plain 50))
    ∷ processor_ends (returns (plain 7))
    ∷ parent_receives
    ∷ answered 0 (returns undefined)
    ∷ parent_receives
    ∷ finishes
    ∷ begins none none
    ∷ child_receives
    ∷ parent_receives
    ∷ finishes
    ∷ sent_back
    ∷ begins (some "token") (some (plain 1))
    ∷ child_receives
    ∷ unsent (plain 8) 12
    ∷ parent_receives
    ∷ finishes
    ∷ sent_back
    ∷ begins none none
    ∷ exits (some 1) none
    ∷ finishes
    ∷ []

results_of_events :
    (run 99 events fresh).results
    ≡ (0, returns (plain 7))
      ∷ (1, throws (remote (plain 99)))
      ∷ (2, throws (remote (plain 12)))
      ∷ (3, throws (bullmq.Sandbox.Session.unexpected_exit (some 1) none))
      ∷ []
unfolding run fresh bullmq.Sandbox.ChildProcessor.new react
results_of_events = refl

abbrev crashing : List (Event ℕ)
crashing =
    begins none none
    ∷ child_receives
    ∷ crashes 13
    ∷ parent_receives
    ∷ exits (some 0) none
    ∷ finishes
    ∷ []

-- The error of an uncaught exception goes to the call under way, also when the child then ends.
results_of_crash : (run 99 crashing fresh).results ≡ (0, throws (remote (plain 13))) ∷ []
unfolding run fresh bullmq.Sandbox.ChildProcessor.new react
results_of_crash = refl

run-IsExplained_example :
    All (λ r. IsExplained 99 (run 99 events fresh).processed r.0 r.1) (run 99 events fresh).results
run-IsExplained_example = run-IsExplained 99 events (omega arith)

abbrev outcomes : List (Outcome ℕ (Value ℕ))
outcomes = returns undefined ∷ throws 4 ∷ returns (plain 7) ∷ []

turns-results_example :
    ((run 99 (turns 99 outcomes) fresh).processed ≡ numbered 0 outcomes)
    × ((run 99 (turns 99 outcomes) fresh).results ≡ numbered 0 (map outcome_of outcomes))
turns-results_example = turns-results 99 outcomes

stale_result_example :
    (es : List (Event ℕ)) × ((run 99 es fresh).processed ≡ (0, returns (plain 7)) ∷ [])
    × ((run 99 es fresh).results
        ≡ (0, throws (call_failed 5)) ∷ (1, returns (or_null (plain 7))) ∷ [])
stale_result_example = stale_result 99 5 (plain 7)

abbrev starting : List (InitEvent ℕ)
starting = message none undefined ∷ close 137 none ∷ message (some init_completed) undefined ∷ []

-- A code above 128 is cut down.
closed_while_starting : init_child waiting starting ≡ closed_with 9 (some "Invalid Argument") none
unfolding init_child
closed_while_starting = refl

killed_twice :
    kill sigterm
      (some (after 100))
      (record { exit_code = none; signal_code = none; killed = false })
      (record { exit_code = none; signal_code = none; killed = false })
    ≡ sigterm ∷ sigkill ∷ []
unfolding kill
killed_twice = refl

inspected :
    convert_exec_argv (λ i. codes "9230") (codes "--inspect=9229" ∷ codes "--trace-warnings" ∷ [])
    ≡ codes "--trace-warnings" ∷ codes "--inspect=9230" ∷ []
unfolding convert_exec_argv
inspected = refl

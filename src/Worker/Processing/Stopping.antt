-- ===== src/Worker/Processing/Stopping.antt =====
-- What src/classes/worker.ts asks of the backend while it is paused or closing.
use bullmq.Shared.{◌&&◌, if◌then◌else◌, Bool, true, false, String, ◌≡◌, refl, arith}
use bullmq.Worker.Retrying.{WorkerError}
use bullmq.Worker.Processing.{ActiveJob, Session, Backend, Context, may_fetch}
use bullmq.Worker.Processing.Handlers.{handle_completed, handle_failed}

stopped : (a b : Bool) → b ≡ false → a && b ≡ false
stopped a b h = ground arith

module _ {B R : Type 0} where
  -- The same backend, but for what happens when it is asked for a job.
  abbrev pub with_fetch : Backend B R → Backend B R → Backend B R
  with_fetch other api = record api {
    move_to_active = other.move_to_active;
    move_to_completed = λ job r t fetch b.
        if fetch
        then other.move_to_completed job r t true b
        else api.move_to_completed job r t false b;
    move_to_failed = λ job e t fetch b.
        if fetch then other.move_to_failed job e t true b else api.move_to_failed job e t false b;
  }

  -- While a worker is paused or closing, its handlers ask for no further job: they do the same
  -- whatever the backend would do when it is asked for one.
  pub stopping_asks_nothing :
      (c : Context B R) (other : Backend B R) (job : ActiveJob) (token : String) (callback : Bool)
      (s : Session B)
      → may_fetch s.timing ≡ false
      → let c' = record c { api = with_fetch other c.api } in
        ((r : R)
          → handle_completed c' r job token callback s ≡ handle_completed c r job token callback s)
        × ((e : WorkerError)
            → handle_failed c' e job token callback s ≡ handle_failed c e job token callback s)
  unfolding handle_completed handle_failed
  stopping_asks_nothing c other job token callback s h =
      (λ r. rw (stopped callback _ h) refl, λ e. rw (stopped callback _ h) refl)

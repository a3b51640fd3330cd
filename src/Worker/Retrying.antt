-- ===== src/Worker/Retrying.antt =====
-- `retryIfFailed` of src/classes/worker.ts, and the test on errors of src/utils/index.ts that it
-- uses. The operation is a function on a state that holds all that it reads and writes; the fuel
-- bounds the number of its calls.
pub mod Answers
use bullmq.Job.Failing.{JobError}
use bullmq.Shared.{
  ℕ, zero, suc, ◌+◌, ◌==◌, ◌===◌, leb, ltb, if◌then◌else◌, not, ◌&&◌, ◌||◌, Bool, true, false, List,
  [], ◌∷◌, Option, none, some, String, codes, Outcome, returns, throws,
}

abbrev is_prefix : List ℕ → List ℕ → Bool
is_prefix [] ys = true
is_prefix (x ∷ xs) [] = false
is_prefix (x ∷ xs) (y ∷ ys) = x == y && is_prefix xs ys

-- `text.includes(part)`, on code points.
abbrev pub is_infix : List ℕ → List ℕ → Bool
is_infix xs [] = is_prefix xs []
is_infix xs (y ∷ ys) = is_prefix xs (y ∷ ys) || is_infix xs ys

-- An error; `connection_closed` says that its class is `ConnectionClosedError`.
pub record WorkerError : Type 0 where
  pub error : JobError
  pub connection_closed : Bool
  pub code : Option String

abbrev is_refused : Option String → Bool
is_refused none = false
is_refused (some c) = c === "ECONNREFUSED"

-- The argument is the message of the Redis client for a closed connection.
unfoldable pub is_not_connection_error : String → WorkerError → Bool
is_not_connection_error closed_msg e =
    if e.connection_closed
    then false
    else not (e.error.message === closed_msg)
      && not (is_infix (codes "ECONNREFUSED") (codes e.error.message))
      && not (is_refused e.code)

pub record RetryOptions : Type 0 where
  pub delay_in_ms : ℕ
  pub max_retries : Option ℕ
  pub only_emit_error : Bool

-- `retry + 1 >= maxRetries`, where a limit that is absent or 0 is `Infinity`.
abbrev pub is_last : Option ℕ → ℕ → Bool
is_last none retry = false
is_last (some zero) retry = false
is_last (some (suc n)) retry = leb (suc n) (retry + 1)

pub record Flags : Type 0 where
  pub paused : Bool
  pub closing : Bool
  pub closed : Bool

-- How the call ends: with a value, without one, with an error, or not within the fuel.
pub data Ended {ℓ κ} (E : Type ℓ) (A : Type κ) : Type (ℓ ⊔ κ) where
  gives : A → Ended E A
  swallows : Ended E A
  rethrows : E → Ended E A
  goes_on : Ended E A

-- What it has done: the end, the state after it, the errors it emitted, the number of calls of the
-- operation and of delays between them.
pub record Retried {ℓ κ μ} (E : Type ℓ) (A : Type κ) (S : Type μ) : Type (ℓ ⊔ κ ⊔ μ) where
  pub ended : Ended E A
  pub state : S
  pub emitted : List E
  pub calls : ℕ
  pub delays : ℕ

-- After an error of the connection: whether there is a delay.
abbrev pub delays_after : RetryOptions → Flags → ℕ
delays_after opts f = if not (opts.delay_in_ms == 0) && not f.closing && not f.closed then 1 else 0

module _ {ℓ κ μ} {E : Type ℓ} {A : Type κ} {S : Type μ} where
  -- After an error that is not the connection's.
  abbrev pub give_up : RetryOptions → Flags → E → S → Retried E A S
  give_up opts f e s = record {
    ended = if opts.only_emit_error then swallows else rethrows e;
    state = s;
    emitted = if not f.paused && not f.closing then e ∷ [] else [];
    calls = 1;
    delays = 0;
  }

  -- After the last error of the connection that is allowed.
  abbrev pub exhausted : RetryOptions → Flags → E → S → Retried E A S
  exhausted opts f e s = record {
    ended = rethrows e;
    state = s;
    emitted = [];
    calls = 1;
    delays = delays_after opts f;
  }

  abbrev pub counted : ℕ → Retried E A S → Retried E A S
  counted d r = record r { calls = suc r.calls; delays = r.delays + d }

module _ {ℓ κ μ} {E : Type ℓ} {A : Type κ} {S : Type μ} (is_not_connection : E → Bool)
    (flags : S → Flags) where
  unfoldable pub retry_if_failed : ℕ → ℕ → (S → Outcome E A × S) → RetryOptions → S → Retried E A S
  retry_if_failed zero retry fn opts s = record {
    ended = goes_on;
    state = s;
    emitted = [];
    calls = 0;
    delays = 0;
  }
  retry_if_failed (suc fuel) retry fn opts s =
      let (answer, s') = fn s in
      let rest = retry_if_failed fuel (retry + 1) fn opts s' in
      elim answer [
        | returns a ↦ record { ended = gives a; state = s'; emitted = []; calls = 1; delays = 0 }
        | throws e ↦
            if is_not_connection e
            then give_up opts (flags s') e s'
            else if is_last opts.max_retries retry
            then exhausted opts (flags s') e s'
            else counted (delays_after opts (flags s')) rest
      ]

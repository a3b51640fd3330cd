-- ===== src/BunClient.antt =====
-- The connection of `BunRedisAdapter` of src/classes/bun-redis-client.ts. A raw client of Bun is
-- known by its number, the current one being the last; what the runtime does with it are events.
pub mod Steps
pub mod Ready
pub mod Closing
pub mod Undone
pub mod Scripting
pub mod Reconnecting
use bullmq.Shared.{
  String, ℕ, zero, suc, ◌+◌, ◌==◌, ltb, if◌then◌else◌, not, ◌&&◌, ◌||◌, Bool, true, false, List, [],
  ◌∷◌, ◌++◌, Option, none, some, min, max,
}

pub data Status : Type 0 where
  wait ready end : Status

pub data Emitted : Type 0 where
  is_ready closes ends errors : Emitted

-- A raw client: whether it is connected, and whether it has the callbacks of the adapter.
pub record Raw : Type 0 where
  pub connected : Bool
  pub on_connect : Bool
  pub on_close : Bool

-- `older` are the raw clients before the current one, the last one first. `timer` is the delay of
-- the timer for a reconnection that has the handle, and `lost` those of the timers that run without
-- it. `awaited` are the raw clients whose `connect()` a call of `connect` waits for, and `retried`
-- those that a timer waits for.
pub record BunClient : Type 0 where
  pub raw : Raw
  pub older : List Raw
  pub status_override : Option Status
  pub has_connected : Bool
  pub closed : Bool
  pub closing : Bool
  pub connecting : Bool
  pub reconnecting : Bool
  pub timer : Option ℕ
  pub lost : List ℕ
  pub reconnect_attempts : ℕ
  pub awaited : List ℕ
  pub retried : List ℕ
  pub emitted : List Emitted
  pub loaded_script_shas : List String

unfoldable pub status : BunClient → Status
status c = elim c.status_override [
  | some s ↦ s
  | none ↦
      if c.closed
      then end
      else if c.raw.connected
      then ready
      else if c.has_connected
      then end
      else wait
]

abbrev pub emit : Emitted → BunClient → BunClient
emit e c = record c { emitted = c.emitted ++ e ∷ [] }

abbrev pub attached : Raw → Raw
attached r = record r { on_connect = true; on_close = true }

-- `_setupCallbacks` on the current raw client.
unfoldable pub setup_callbacks : BunClient → BunClient
setup_callbacks c = record c { raw = attached c.raw }

-- A client before its constructor connects.
unfoldable pub new : BunClient
unfolding setup_callbacks
new = setup_callbacks (record {
  raw = record { connected = false; on_connect = false; on_close = false };
  older = [];
  status_override = none;
  has_connected = false;
  closed = false;
  closing = false;
  connecting = false;
  reconnecting = false;
  timer = none;
  lost = [];
  loaded_script_shas = [];
  reconnect_attempts = 0;
  awaited = [];
  retried = [];
  emitted = [];
})

-- The number of the current raw client.
abbrev pub count {ℓ} : {A : Type ℓ} → List A → ℕ
count [] = 0
count (r ∷ rs) = suc (count rs)

-- A fresh raw client takes the place of the current one.
abbrev pub replace_raw : BunClient → BunClient
replace_raw c = record c {
  raw = record { connected = false; on_connect = false; on_close = false };
  older = c.raw ∷ c.older;
}

-- The `onconnect` callback. With a name for the connection, the event comes once that is set.
unfoldable pub on_connect : BunClient → BunClient
on_connect c = emit is_ready (record c {
  has_connected = true;
  closed = false;
  closing = false;
  reconnecting = false;
  reconnect_attempts = 0;
  loaded_script_shas = [];
  status_override = none;
})

-- `Math.exp(attempts) * 100`, rounded, is an argument.
unfoldable pub reconnect_delay : (ℕ → ℕ) → ℕ → ℕ
reconnect_delay exp attempts = max (min (exp attempts) 20000) 1000

abbrev with_timer : Option ℕ → List ℕ → List ℕ
with_timer none lost = lost
with_timer (some delay) lost = delay ∷ lost

-- `_scheduleReconnect`.
unfoldable pub schedule_reconnect : (ℕ → ℕ) → BunClient → BunClient
unfolding reconnect_delay
schedule_reconnect exp c = if c.closing || c.reconnecting then c else record c {
  reconnecting = true;
  reconnect_attempts = c.reconnect_attempts + 1;
  timer = some (reconnect_delay exp (c.reconnect_attempts + 1));
  lost = with_timer c.timer c.lost;
}

abbrev with_error : Bool → BunClient → BunClient
with_error true c = emit errors c
with_error false c = c

-- The `onclose` callback, with an error or without one.
unfoldable pub on_close : (ℕ → ℕ) → Bool → BunClient → BunClient
unfolding schedule_reconnect
on_close exp error c =
    let c' = record c { closed = true } in
    if c.closing
    then emit ends (emit closes c')
    else schedule_reconnect exp (with_error error (emit closes c'))

-- The callback of a timer, after the handle is cleared, up to `await newRaw.connect()`.
unfoldable pub on_timer : BunClient → BunClient
unfolding setup_callbacks
on_timer c =
    if c.closing
    then record c { reconnecting = false }
    else let d = setup_callbacks (replace_raw (record c { closed = false; connecting = false })) in
      record d { retried = count d.older ∷ d.retried }

-- The timer of the handle fires.
unfoldable pub fire : BunClient → BunClient
unfolding on_timer
fire c = elim c.timer [ none ↦ c | some delay ↦ on_timer (record c { timer = none }) ]

abbrev pub fire_first : List ℕ → BunClient → BunClient
fire_first [] c = c
fire_first (delay ∷ lost) c = on_timer (record c { timer = none; lost = with_timer c.timer lost })

-- A timer without a handle fires, and clears the handle of another one.
unfoldable pub fire_lost : BunClient → BunClient
unfolding on_timer
fire_lost c = fire_first c.lost c

-- Its `catch` block.
unfoldable pub retry_failed : (ℕ → ℕ) → BunClient → BunClient
unfolding schedule_reconnect
retry_failed exp c =
    let c' = record c { reconnecting = false } in
    if c.closing then c' else schedule_reconnect exp c'

abbrev opened : BunClient → BunClient
opened c = record c {
  has_connected = true;
  closed = false;
  closing = false;
  status_override = none;
}

-- `connect`, up to the wait.
unfoldable pub connect : BunClient → BunClient
unfolding setup_callbacks
connect c =
    let replaces = c.has_connected && (c.closed || not c.raw.connected) in
    let d = record c { timer = none; reconnecting = false } in
    if c.raw.connected && not replaces
    then opened d
    else if c.connecting
    then d
    else let e = record d { closed = false; closing = false; status_override = none } in
      let f = if replaces then setup_callbacks (replace_raw e) else e in
      record f { connecting = true; awaited = count f.older ∷ f.awaited }

-- What follows its `raw.connect()`.
unfoldable pub connected : BunClient → BunClient
connected c = record (opened c) { connecting = false }

unfoldable pub connect_failed : BunClient → BunClient
connect_failed c = record c { connecting = false }

-- `_closeRaw`. A raw client that is connected is closed in a later event, when it has no callbacks.
unfoldable pub close_raw : BunClient → BunClient
close_raw c = record c {
  timer = none;
  reconnecting = false;
  raw = record c.raw { on_connect = false; on_close = false };
}

abbrev pub shut : BunClient → BunClient
shut c = record c { closing = true; closed = true; status_override = some end }

unfoldable pub disconnect : (ℕ → ℕ) → Bool → BunClient → BunClient
unfolding close_raw schedule_reconnect
disconnect exp reconnect c =
    if c.closed && not reconnect
    then c
    else if reconnect
    then schedule_reconnect exp (
        emit closes (record c {
          closed = true;
          status_override = none;
          raw = record c.raw { on_close = false };
        }))
    else emit ends (emit closes (close_raw (shut c)))

-- `quit`; the events come a tick later.
unfoldable pub quit : BunClient → BunClient
unfolding close_raw
quit c =
    if c.closed then emit closes (emit ends c) else emit closes (emit ends (close_raw (shut c)))

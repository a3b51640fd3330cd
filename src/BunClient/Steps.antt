-- ===== src/BunClient/Steps.antt =====
-- What happens to the connection of src/classes/bun-redis-client.ts, as steps: calls of its
-- methods, its timers, and what the runtime does with the raw clients. A raw client connects or
-- fails to only while its `connect()` is waited for, and drops only while it is connected.
use bullmq.Shared.{
  ℕ, ◌==◌, if◌then◌else◌, not, ◌||◌, Bool, true, false, List, [], ◌∷◌, Option, none, some, any,
  keep,
}
use bullmq.BunClient.{
  Raw, BunClient, count, on_connect, on_close, fire, fire_lost, retry_failed, connect, connected,
  connect_failed, disconnect, quit,
}

pub data Event : Type 0 where
  connects fails : ℕ → Event
  -- With an error or without one.
  drops : ℕ → Bool → Event
  fires fires_lost connect_called quit_called : Event
  disconnect_called : Bool → Event

abbrev pub mentions : ℕ → List ℕ → Bool
mentions i xs = any (λ j. j == i) xs

abbrev pub without : ℕ → List ℕ → List ℕ
without i xs = keep (λ j. not (j == i)) xs

-- The raw client with a number, the first of the list having the highest.
abbrev pub raw_in : ℕ → List Raw → Option Raw
raw_in i [] = none
raw_in i (r ∷ rs) = let rest = raw_in i rs in if i == count rs then some r else rest

abbrev pub set_in : ℕ → Raw → List Raw → List Raw
set_in i x [] = []
set_in i x (r ∷ rs) = let rest = set_in i x rs in if i == count rs then x ∷ rs else r ∷ rest

abbrev pub raw_at : ℕ → BunClient → Option Raw
raw_at i c = if i == count c.older then some c.raw else raw_in i c.older

abbrev pub set_raw : ℕ → Raw → BunClient → BunClient
set_raw i x c =
    if i == count c.older then record c { raw = x } else record c { older = set_in i x c.older }

-- The callback of a raw client that has connected, and what waited for it.
abbrev pub call_on_connect : Raw → BunClient → BunClient
call_on_connect r c = if r.on_connect then on_connect c else c

abbrev pub resume_connect : ℕ → BunClient → BunClient
resume_connect i c =
    let d = record c { awaited = without i c.awaited; retried = without i c.retried } in
    if mentions i c.awaited then connected d else d

unfoldable pub raw_connects : ℕ → Option Raw → BunClient → BunClient
unfolding on_connect connected
raw_connects i none c = c
raw_connects i (some r) c =
    if mentions i c.awaited || mentions i c.retried
    then resume_connect i (call_on_connect r (set_raw i (record r { connected = true }) c))
    else c

abbrev pub fail_connect : ℕ → List ℕ → BunClient → BunClient
fail_connect i awaited c = if mentions i awaited then connect_failed c else c

abbrev pub fail_retry : (ℕ → ℕ) → ℕ → List ℕ → BunClient → BunClient
fail_retry exp i retried c = if mentions i retried then retry_failed exp c else c

unfoldable pub raw_fails : (ℕ → ℕ) → ℕ → BunClient → BunClient
unfolding connect_failed retry_failed
raw_fails exp i c = fail_retry exp i c.retried (
    fail_connect i c.awaited
      (record c { awaited = without i c.awaited; retried = without i c.retried }))

abbrev pub call_on_close : (ℕ → ℕ) → Bool → Raw → BunClient → BunClient
call_on_close exp error r c = if r.on_close then on_close exp error c else c

unfoldable pub raw_drops : (ℕ → ℕ) → ℕ → Bool → Option Raw → BunClient → BunClient
unfolding on_close
raw_drops exp i error none c = c
raw_drops exp i error (some r) c =
    if r.connected
    then call_on_close exp error r (set_raw i (record r { connected = false }) c)
    else c

unfoldable pub step : (ℕ → ℕ) → Event → BunClient → BunClient
unfolding raw_connects raw_fails raw_drops fire fire_lost connect quit disconnect
step exp (connects i) c = raw_connects i (raw_at i c) c
step exp (fails i) c = raw_fails exp i c
step exp (drops i error) c = raw_drops exp i error (raw_at i c) c
step exp fires c = fire c
step exp fires_lost c = fire_lost c
step exp connect_called c = connect c
step exp quit_called c = quit c
step exp (disconnect_called reconnect) c = disconnect exp reconnect c

unfoldable pub run : (ℕ → ℕ) → List Event → BunClient → BunClient
unfolding step
run exp [] c = c
run exp (e ∷ es) c = run exp es (step exp e c)

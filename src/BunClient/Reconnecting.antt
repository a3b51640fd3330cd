-- ===== src/BunClient/Reconnecting.antt =====
-- How src/classes/bun-redis-client.ts reconnects after its connection has dropped.
use bullmq.Shared.{
  ℕ, suc, ◌+◌, ◌≡◌, refl, sym, subst, if◌then◌else◌, ◌||◌, ◌&&◌, Bool, true, false, List, [], ◌∷◌,
  none, some, All, ◌≤◌, arith,
}
use bullmq.BunClient.{
  ready, BunClient, status, replace_raw, count, on_connect, on_close, fire, on_timer,
  setup_callbacks, reconnect_delay, connected, disconnect, quit, schedule_reconnect,
}
use bullmq.BunClient.Steps.{
  Event, connects, fails, drops, fires, fires_lost, connect_called, quit_called, disconnect_called,
  mentions, raw_at, raw_connects, raw_drops, step, run, resume_connect,
}
use bullmq.BunClient.Ready.{
  eq_self, raw_at-count, set_raw-count, IsReady, IsReady-status, if-IsReady, when_true, or_true,
}

-- The connection has dropped, and a timer of a positive delay is set.
record IsDropped (n : ℕ) (c : BunClient) : Type 0 where
  closing : c.closing ≡ false
  closed : c.closed ≡ true
  timer : (t : ℕ) × ((c.timer ≡ some t) × ((1000 ≤ t) × (t ≤ 20000)))
  older : count c.older ≡ n

abbrev pub IsShutting : Event → Type 0
IsShutting (connects i) = ⊥
IsShutting (fails i) = ⊥
IsShutting (drops i error) = ⊥
IsShutting fires = ⊥
IsShutting fires_lost = ⊥
IsShutting connect_called = ⊥
IsShutting quit_called = Unit
IsShutting (disconnect_called reconnect) = reconnect ≡ false

if_true :
    (n : ℕ) (b : Bool) (c d : BunClient)
    → b ≡ true
    → IsDropped n c
    → IsDropped n (if b then c else d)
if_true n true c d e h = h
if_true n false c d e h = absurd (cc e)

if_false :
    (n : ℕ) (b : Bool) (c d : BunClient)
    → b ≡ false
    → IsDropped n d
    → IsDropped n (if b then c else d)
if_false n true c d e h = absurd (cc e)
if_false n false c d e h = h

delay_bounds :
    (exp : ℕ → ℕ) (n : ℕ) → (1000 ≤ reconnect_delay exp n) × (reconnect_delay exp n ≤ 20000)
unfolding reconnect_delay
delay_bounds exp n = (omega arith, omega arith)

schedule-IsDropped :
    (exp : ℕ → ℕ) (n : ℕ) (c : BunClient)
    → c.closing ≡ false
    → c.reconnecting ≡ false
    → c.closed ≡ true
    → count c.older ≡ n
    → IsDropped n (schedule_reconnect exp c)
unfolding schedule_reconnect
schedule-IsDropped exp n c g r d o =
    if_false n (c.closing || c.reconnecting) c _ (rw (g, r) refl) (record {
      closing = g;
      closed = d;
      timer = (reconnect_delay exp (c.reconnect_attempts + 1), (refl, delay_bounds exp _));
      older = o;
    })

on_close-IsDropped :
    (exp : ℕ → ℕ) (n : ℕ) (error : Bool) (c : BunClient)
    → c.closing ≡ false
    → c.reconnecting ≡ false
    → count c.older ≡ n
    → IsDropped n (on_close exp error c)
unfolding on_close
on_close-IsDropped exp n true c g r o =
    if_false n c.closing _ _ g (schedule-IsDropped exp n _ g r refl o)
on_close-IsDropped exp n false c g r o =
    if_false n c.closing _ _ g (schedule-IsDropped exp n _ g r refl o)

raw_drops-IsDropped :
    (exp : ℕ → ℕ) (error : Bool) (c : BunClient)
    → c.closing ≡ false
    → c.reconnecting ≡ false
    → c.raw.connected ≡ true
    → c.raw.on_close ≡ true
    → IsDropped (count c.older) (raw_drops exp (count c.older) error (raw_at (count c.older) c) c)
unfolding raw_drops
raw_drops-IsDropped exp error c g r k o =
    let n = count c.older in
    let x = record c.raw { connected = false } in
    subst (λ r. IsDropped n (raw_drops exp n error r c)) (sym (raw_at-count c))
      (if_true n c.raw.connected _ c k (
        if_true n c.raw.on_close _ _ o (
          subst (λ d. IsDropped n (on_close exp error d)) (sym (set_raw-count x c))
            (on_close-IsDropped exp n error (record c { raw = x }) g r refl))))

shutting-IsDropped :
    (exp : ℕ → ℕ) (n : ℕ) (e : Event) (c : BunClient)
    → IsShutting e
    → IsDropped n c
    → IsDropped n (step exp e c)
unfolding step quit disconnect
shutting-IsDropped exp n (connects _) c s h = elim s [ ]
shutting-IsDropped exp n (fails _) c s h = elim s [ ]
shutting-IsDropped exp n (drops _ _) c s h = elim s [ ]
shutting-IsDropped exp n fires c s h = elim s [ ]
shutting-IsDropped exp n fires_lost c s h = elim s [ ]
shutting-IsDropped exp n connect_called c s h = elim s [ ]
shutting-IsDropped exp n quit_called c s h =
    if_true n c.closed _ _ h.closed
      (record { closing = h.closing; closed = h.closed; timer = h.timer; older = h.older })
shutting-IsDropped exp n (disconnect_called true) c s h = absurd (cc s)
shutting-IsDropped exp n (disconnect_called false) c s h =
    if_true n (c.closed && true) c _ (rw h.closed refl) h

run-IsDropped :
    (exp : ℕ → ℕ) (n : ℕ) (es : List Event) (c : BunClient)
    → All IsShutting es
    → IsDropped n c
    → IsDropped n (run exp es c)
unfolding run
run-IsDropped exp n [] c s h = h
run-IsDropped exp n (e ∷ es) c s h =
    run-IsDropped exp n es (step exp e c) s.1 (shutting-IsDropped exp n e c s.0 h)

resume-IsReady : (i : ℕ) (c : BunClient) → IsReady c → IsReady (resume_connect i c)
unfolding connected
resume-IsReady i c h =
    if-IsReady (mentions i c.awaited) _ _
      (record { connected = h.connected; closed = refl; override = refl })
      (record { connected = h.connected; closed = h.closed; override = h.override })

-- What the timer leaves while the client is not closing.
abbrev refired : BunClient → BunClient
refired c =
    let d =
      setup_callbacks
        (replace_raw (record c { timer = none; closed = false; connecting = false })) in
    record d { retried = count d.older ∷ d.retried }

fire_lem : (t : ℕ) (c : BunClient) → c.timer ≡ some t → c.closing ≡ false → fire c ≡ refired c
unfolding fire
fire_lem t c e g = rw (e, fire, on_timer) (rw g refl)

-- The current raw client, for which a timer waits, connects.
raw_connects-IsReady :
    (c : BunClient)
    → c.raw.on_connect ≡ true
    → mentions (count c.older) c.retried ≡ true
    → IsReady (raw_connects (count c.older) (raw_at (count c.older) c) c)
unfolding raw_connects on_connect
raw_connects-IsReady c o m =
    let n = count c.older in
    let x = record c.raw { connected = true } in
    subst (λ r. IsReady (raw_connects n r c)) (sym (raw_at-count c))
      (when_true (mentions n c.awaited || mentions n c.retried) _ c
        (or_true (mentions n c.awaited) (mentions n c.retried) m)
        (resume-IsReady n _ (
          when_true c.raw.on_connect _ _ o (
            subst (λ d. IsReady (on_connect d)) (sym (set_raw-count x c))
              (record { connected = refl; closed = refl; override = refl })))))

fire-connects :
    (exp : ℕ → ℕ) (n : ℕ) (c : BunClient)
    → IsDropped n c
    → status (run exp (fires ∷ connects (suc n) ∷ []) c) ≡ ready
unfolding run step setup_callbacks
fire-connects exp n c h =
    subst (λ n. status (run exp (fires ∷ connects (suc n) ∷ []) c) ≡ ready) h.older
      (subst
        (λ d.
          status (raw_connects (suc (count c.older)) (raw_at (suc (count c.older)) d) d) ≡ ready)
        (sym (fire_lem h.timer.0 c h.timer.1.0 h.closing))
        (IsReady-status _
          (raw_connects-IsReady (refired c) refl (rw (eq_self (suc (count c.older))) refl))))

-- When the raw client of a client that is not closing drops, with an error or without one, and no
-- reconnection is under way, a timer of between 1000 and 20000 is set, also after any calls of
-- `quit` and of `disconnect` for good, which change nothing but the events: once the timer fires
-- and the raw client that it makes connects, the client is ready again.
pub drop_reconnects :
    (exp : ℕ → ℕ) (c : BunClient) (error : Bool) (calls : List Event)
    → c.closing ≡ false
    → c.reconnecting ≡ false
    → c.raw.connected ≡ true
    → c.raw.on_close ≡ true
    → All IsShutting calls
    → let n = count c.older in
      let d = run exp calls (step exp (drops n error) c) in
      ((delay : ℕ) × ((d.timer ≡ some delay) × ((1000 ≤ delay) × (delay ≤ 20000))))
      × (status (run exp (fires ∷ connects (suc n) ∷ []) d) ≡ ready)
unfolding step
drop_reconnects exp c error calls g r k o s =
    let h = run-IsDropped exp _ calls _ s (raw_drops-IsDropped exp error c g r k o) in
    (h.timer, fire-connects exp _ _ h)

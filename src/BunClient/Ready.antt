-- ===== src/BunClient/Ready.antt =====
-- When the client of src/classes/bun-redis-client.ts is ready, and its current raw client.
use bullmq.Shared.{ℕ, ◌==◌, ◌≡◌, refl, if◌then◌else◌, ◌||◌, Bool, true, false, none, some, arith}
use bullmq.BunClient.{ready, Raw, BunClient, status, count}
use bullmq.BunClient.Steps.{raw_at, set_raw}

pub eq_self : (n : ℕ) → (n == n) ≡ true
eq_self n = ground arith

pub raw_at-count : (c : BunClient) → raw_at (count c.older) c ≡ some c.raw
raw_at-count c = rw (eq_self (count c.older)) refl

pub set_raw-count : (x : Raw) (c : BunClient) → set_raw (count c.older) x c ≡ record c { raw = x }
set_raw-count x c = rw (eq_self (count c.older)) refl

pub record IsReady (c : BunClient) : Type 0 where
  pub connected : c.raw.connected ≡ true
  pub closed : c.closed ≡ false
  pub override : c.status_override ≡ none

pub IsReady-status : (c : BunClient) → IsReady c → status c ≡ ready
unfolding status
IsReady-status c h = rw (h.override, h.closed, h.connected) refl

pub if-IsReady : (b : Bool) (c d : BunClient) → IsReady c → IsReady d → IsReady (if b then c else d)
if-IsReady true c d h k = h
if-IsReady false c d h k = k

pub when_true : (b : Bool) (c d : BunClient) → b ≡ true → IsReady c → IsReady (if b then c else d)
when_true true c d e h = h
when_true false c d e h = absurd (cc e)

pub or_true : (a b : Bool) → b ≡ true → (a || b) ≡ true
or_true true b e = refl
or_true false b e = e

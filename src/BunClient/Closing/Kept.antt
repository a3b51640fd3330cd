-- ===== src/BunClient/Closing/Kept.antt =====
-- What keeps the connection of src/classes/bun-redis-client.ts closed: its timers, and what the
-- runtime does with its raw clients.
use bullmq.Shared.{
  ℕ, ◌==◌, ◌≡◌, refl, sym, ap, subst, Option-cases, ◌∙◌, if◌then◌else◌, ◌||◌, ◌&&◌, Bool,
  Bool-cases, inl, inr, true, false, List, [], ◌∷◌, Option, none, some, All, arith,
}
use bullmq.BunClient.{
  end, Raw, BunClient, status, count, on_close, fire, fire_lost, fire_first, on_timer, retry_failed,
  connect_failed, disconnect, quit, close_raw,
}
use bullmq.BunClient.Steps.{
  mentions, without, set_in, raw_at, set_raw, raw_connects, raw_fails, raw_drops, fail_connect,
  call_on_connect,
}

-- The client has been closed, and at most its current raw client may still connect, for a timer.
pub record IsClosed (c : BunClient) : Type 0 where
  pub closing : c.closing ≡ true
  pub closed : c.closed ≡ true
  pub ended : c.status_override ≡ some end
  pub no_timer : c.timer ≡ none
  pub not_awaited : c.awaited ≡ []
  pub current : All (λ i. i ≡ count c.older) c.retried
  pub silent : c.raw.on_connect ≡ false

pub IsClosed-status : (c : BunClient) → IsClosed c → status c ≡ end
unfolding status
IsClosed-status c h = rw h.ended refl

if-IsClosed : (b : Bool) (c d : BunClient) → IsClosed c → IsClosed d → IsClosed (if b then c else d)
if-IsClosed true c d hc hd = hc
if-IsClosed false c d hc hd = hd

if_true : (b : Bool) (c d : BunClient) → b ≡ true → IsClosed c → IsClosed (if b then c else d)
if_true true c d e h = h
if_true false c d e h = absurd (cc e)

pub if_false : (b : Bool) (c d : BunClient) → b ≡ false → IsClosed d → IsClosed (if b then c else d)
if_false true c d e h = absurd (cc e)
if_false false c d e h = h

All-mentions : (n i : ℕ) (xs : List ℕ) → All (λ j. j ≡ n) xs → mentions i xs ≡ true → i ≡ n
All-mentions n i [] h e = absurd (cc e)
All-mentions n i (x ∷ xs) h e = elim (Bool-cases (x == i)) [
  | inl k ↦ ground (arith, h.0)
  | inr k ↦ All-mentions n i xs h.1 (ground (arith, k))
]

All-without : (n i : ℕ) (xs : List ℕ) → All (λ j. j ≡ n) xs → All (λ j. j ≡ n) (without i xs)
All-without n i [] h = tt
All-without n i (x ∷ xs) h = elim (Bool-cases (x == i)) [
  | inl e ↦ rw e (All-without n i xs h.1)
  | inr e ↦ rw e (h.0, All-without n i xs h.1)
]

count-set_in : (i : ℕ) (x : Raw) (rs : List Raw) → count (set_in i x rs) ≡ count rs
count-set_in i x [] = refl
count-set_in i x (r ∷ rs) = ground (arith, count-set_in i x rs)

-- What only changes the events, or who is waited for less, keeps it closed.
IsClosed-cong :
    (c d : BunClient)
    → IsClosed c
    → d.closing ≡ c.closing
    → d.closed ≡ true
    → d.status_override ≡ c.status_override
    → d.timer ≡ none
    → d.awaited ≡ []
    → All (λ i. i ≡ count d.older) d.retried
    → d.raw.on_connect ≡ false
    → IsClosed d
IsClosed-cong c d h p q r s t u v = record {
  closing = p ∙ h.closing;
  closed = q;
  ended = r ∙ h.ended;
  no_timer = s;
  not_awaited = t;
  current = u;
  silent = v;
}

on_timer-IsClosed : (c : BunClient) → IsClosed c → IsClosed (on_timer c)
unfolding on_timer
on_timer-IsClosed c h =
    if_true c.closing _ _ h.closing
      (IsClosed-cong c _ h refl h.closed refl h.no_timer h.not_awaited h.current h.silent)

pub fire-IsClosed : (c : BunClient) → IsClosed c → IsClosed (fire c)
unfolding fire
fire-IsClosed c h = elim (Option-cases c.timer) [
  | inl e ↦ rw (e, fire) h
  | inr (t, e) ↦ absurd (cc (h.no_timer, e))
]

pub fire_lost-IsClosed : (c : BunClient) → IsClosed c → IsClosed (fire_lost c)
unfolding fire_lost
fire_lost-IsClosed c h = first c.lost
  where
    first : (lost : List ℕ) → IsClosed (fire_first lost c)
    first [] = h
    first (delay ∷ lost) =
        on_timer-IsClosed _
          (IsClosed-cong c _ h refl h.closed refl refl h.not_awaited h.current h.silent)

pub quit-IsClosed : (c : BunClient) → IsClosed c → IsClosed (quit c)
unfolding quit close_raw
quit-IsClosed c h =
    if-IsClosed c.closed _ _
      (IsClosed-cong c _ h refl h.closed refl h.no_timer h.not_awaited h.current h.silent)
      (IsClosed-cong c _ h (sym h.closing) refl (sym h.ended) refl h.not_awaited h.current refl)

pub disconnect-IsClosed :
    (exp : ℕ → ℕ) (c : BunClient) → IsClosed c → IsClosed (disconnect exp false c)
unfolding disconnect close_raw
disconnect-IsClosed exp c h =
    if-IsClosed (c.closed && true) c _ h
      (IsClosed-cong c _ h (sym h.closing) refl (sym h.ended) refl h.not_awaited h.current refl)

retry_failed-IsClosed : (exp : ℕ → ℕ) (c : BunClient) → IsClosed c → IsClosed (retry_failed exp c)
unfolding retry_failed
retry_failed-IsClosed exp c h =
    if_true c.closing _ _ h.closing
      (IsClosed-cong c _ h refl h.closed refl h.no_timer h.not_awaited h.current h.silent)

without-IsClosed :
    (i : ℕ) (c : BunClient)
    → IsClosed c
    → IsClosed (record c { awaited = without i c.awaited; retried = without i c.retried })
without-IsClosed i c h =
    IsClosed-cong c _ h refl h.closed refl h.no_timer (ap (without i) h.not_awaited)
      (All-without (count c.older) i c.retried h.current) h.silent

pub raw_fails-IsClosed :
    (exp : ℕ → ℕ) (i : ℕ) (c : BunClient) → IsClosed c → IsClosed (raw_fails exp i c)
unfolding raw_fails connect_failed
raw_fails-IsClosed exp i c h =
    let d = record c { awaited = without i c.awaited; retried = without i c.retried } in
    let less : IsClosed d = without-IsClosed i c h in
    let failed : IsClosed (fail_connect i c.awaited d) =
      if-IsClosed (mentions i c.awaited) (connect_failed d) d
        (IsClosed-cong d _ less refl less.closed refl less.no_timer less.not_awaited less.current
          less.silent)
        less in
    if-IsClosed (mentions i c.retried) _ _ (retry_failed-IsClosed exp _ failed) failed

-- A raw client that keeps its callback silent.
set_raw-IsClosed :
    (i : ℕ) (x : Raw) (c : BunClient)
    → (i ≡ count c.older → x.on_connect ≡ false)
    → IsClosed c
    → IsClosed (set_raw i x c)
set_raw-IsClosed i x c s h = elim (Bool-cases (i == count c.older)) [
  | inl e ↦
      if_true (i == count c.older) _ _ e (
        IsClosed-cong c _ h refl h.closed refl h.no_timer h.not_awaited h.current
          (s (ground arith)))
  | inr e ↦ if_false (i == count c.older) _ _ e (
      IsClosed-cong c _ h refl h.closed refl h.no_timer h.not_awaited
        (subst (λ n. All (λ j. j ≡ n) c.retried) (sym (count-set_in i x c.older)) h.current)
        h.silent)
]

raw_at-current :
    (i : ℕ) (r : Raw) (c : BunClient) → raw_at i c ≡ some r → i ≡ count c.older → r ≡ c.raw
raw_at-current i r c e h = ground arith

on_close-IsClosed :
    (exp : ℕ → ℕ) (error : Bool) (c : BunClient) → IsClosed c → IsClosed (on_close exp error c)
unfolding on_close
on_close-IsClosed exp error c h =
    if_true c.closing _ _ h.closing
      (IsClosed-cong c _ h refl refl refl h.no_timer h.not_awaited h.current h.silent)

pub raw_drops-IsClosed :
    (exp : ℕ → ℕ) (i : ℕ) (error : Bool) (r : Option Raw) (c : BunClient)
    → raw_at i c ≡ r
    → IsClosed c
    → IsClosed (raw_drops exp i error r c)
unfolding raw_drops
raw_drops-IsClosed exp i error none c e h = h
raw_drops-IsClosed exp i error (some r) c e h =
    let dropped =
      set_raw-IsClosed i (record r { connected = false }) c
        (λ k. ap (λ r. r.on_connect) (raw_at-current i r c e k) ∙ h.silent) h in
    if-IsClosed r.connected _ c
      (if-IsClosed r.on_close _ _ (on_close-IsClosed exp error _ dropped) dropped) h

-- Only the current raw client is waited for, and it calls back no more.
pub raw_connects-IsClosed :
    (i : ℕ) (r : Option Raw) (c : BunClient)
    → raw_at i c ≡ r
    → IsClosed c
    → IsClosed (raw_connects i r c)
unfolding raw_connects
raw_connects-IsClosed i none c e h = h
raw_connects-IsClosed i (some r) c e h = elim (Bool-cases (mentions i c.retried)) [
  | inl m ↦
      let current : i ≡ count c.older = All-mentions (count c.older) i c.retried h.current m in
      let off : r.on_connect ≡ false =
        ap (λ r. r.on_connect) (raw_at-current i r c e current) ∙ h.silent in
      let d = set_raw i (record r { connected = true }) c in
      let held : IsClosed (call_on_connect r d) =
        if_false r.on_connect _ d off (set_raw-IsClosed i _ c (λ k. off) h) in
      if-IsClosed _ _ c
        (if_false (mentions i (call_on_connect r d).awaited) _ _ (ap (mentions i) held.not_awaited)
          (without-IsClosed i _ held))
        h
  | inr m ↦
      if_false (mentions i c.awaited || mentions i c.retried) _ c (rw (h.not_awaited, m) refl) h
]

-- ===== src/BunClient/Undone.antt =====
-- A call of `connect` of src/classes/bun-redis-client.ts that is under way when the client is
-- closed.
use bullmq.Shared.{ℕ, ◌≡◌, refl, sym, subst, if◌then◌else◌, ◌||◌, Bool, true, false, [], ◌∷◌}
use bullmq.BunClient.{
  ready, end, BunClient, status, emit, shut, closes, ends, count, on_connect, connected, disconnect,
  quit, close_raw,
}
use bullmq.BunClient.Steps.{
  connects, quit_called, disconnect_called, mentions, raw_at, raw_connects, step, run,
  resume_connect,
}
use bullmq.BunClient.Ready.{raw_at-count, set_raw-count, IsReady, IsReady-status, when_true}

-- What waits for the current raw client is `connect`.
resume-opens :
    (i : ℕ) (c : BunClient)
    → mentions i c.awaited ≡ true
    → c.raw.connected ≡ true
    → IsReady (resume_connect i c)
unfolding connected
resume-opens i c m k =
    when_true (mentions i c.awaited) _ _ m
      (record { connected = k; closed = refl; override = refl })

or_left : (a b : Bool) → a ≡ true → (a || b) ≡ true
or_left true b e = refl
or_left false b e = absurd (cc e)

-- The raw client connects, without a callback.
raw_connects-opens :
    (c : BunClient)
    → c.raw.on_connect ≡ false
    → mentions (count c.older) c.awaited ≡ true
    → status (raw_connects (count c.older) (raw_at (count c.older) c) c) ≡ ready
unfolding raw_connects
raw_connects-opens c o m =
    let n = count c.older in
    let x = record c.raw { connected = true } in
    IsReady-status _ (
      subst (λ r. IsReady (raw_connects n r c)) (sym (raw_at-count c))
        (when_true (mentions n c.awaited || mentions n c.retried) _ c
          (or_left (mentions n c.awaited) (mentions n c.retried) m)
          (subst (λ d. IsReady (resume_connect n (if c.raw.on_connect then on_connect d else d)))
            (sym (set_raw-count x c))
            (subst
              (λ b.
                IsReady (
                  resume_connect n (let d = record c { raw = x } in if b then on_connect d else d)))
              (sym o) (resume-opens n _ m refl)))))

disconnect_lem :
    (exp : ℕ → ℕ) (c : BunClient)
    → c.closed ≡ false
    → disconnect exp false c ≡ emit ends (emit closes (close_raw (shut c)))
unfolding disconnect
disconnect_lem exp c o = rw (o, disconnect) refl

quit_lem :
    (c : BunClient) → c.closed ≡ false → quit c ≡ emit closes (emit ends (close_raw (shut c)))
unfolding quit
quit_lem c o = rw (o, quit) refl

-- When a client that is not closed waits in `connect` for its current raw client, it is ready once
-- that raw client connects, although it was disconnected for good or has quit before, after which
-- its status was `end`.
pub connect_undoes :
    (exp : ℕ → ℕ) (c : BunClient)
    → c.closed ≡ false
    → mentions (count c.older) c.awaited ≡ true
    → let n = count c.older in
      ((status (disconnect exp false c) ≡ end) × (status (quit c) ≡ end))
      × ((status (run exp (disconnect_called false ∷ connects n ∷ []) c) ≡ ready)
          × (status (run exp (quit_called ∷ connects n ∷ []) c) ≡ ready))
unfolding run step close_raw status
connect_undoes exp c o m =
    let n = count c.older in
    (
      (
        subst (λ d. status d ≡ end) (sym (disconnect_lem exp c o)) refl,
        subst (λ d. status d ≡ end) (sym (quit_lem c o)) refl,
      ),
      (
        subst (λ d. status (raw_connects n (raw_at n d) d) ≡ ready) (sym (disconnect_lem exp c o))
            (raw_connects-opens (emit ends (emit closes (close_raw (shut c)))) refl m),
        subst (λ d. status (raw_connects n (raw_at n d) d) ≡ ready) (sym (quit_lem c o))
            (raw_connects-opens (emit closes (emit ends (close_raw (shut c)))) refl m),
      ),
    )

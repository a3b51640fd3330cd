-- ===== src/BunClient/Closing.antt =====
-- What closes the connection of src/classes/bun-redis-client.ts for good, and what does not.
pub mod Kept
use bullmq.Shared.{ℕ, ◌≡◌, refl, sym, subst, ◌&&◌, true, false, List, [], ◌∷◌, All}
use bullmq.BunClient.{end, BunClient, status, count, disconnect, quit, close_raw}
use bullmq.BunClient.Steps.{
  Event, connects, fails, drops, fires, fires_lost, connect_called, quit_called, disconnect_called,
  raw_at, step, run,
}
use bullmq.BunClient.Closing.Kept.{
  IsClosed, IsClosed-status, if_false, fire-IsClosed, fire_lost-IsClosed, quit-IsClosed,
  disconnect-IsClosed, raw_fails-IsClosed, raw_drops-IsClosed, raw_connects-IsClosed,
}

-- No call that opens the connection again.
abbrev pub IsNoCall : Event → Type 0
IsNoCall (connects i) = Unit
IsNoCall (fails i) = Unit
IsNoCall (drops i error) = Unit
IsNoCall fires = Unit
IsNoCall fires_lost = Unit
IsNoCall quit_called = Unit
IsNoCall (disconnect_called reconnect) = reconnect ≡ false
IsNoCall connect_called = ⊥

step-IsClosed :
    (exp : ℕ → ℕ) (e : Event) (c : BunClient) → IsNoCall e → IsClosed c → IsClosed (step exp e c)
unfolding step
step-IsClosed exp (connects i) c n h = raw_connects-IsClosed i (raw_at i c) c refl h
step-IsClosed exp (fails i) c n h = raw_fails-IsClosed exp i c h
step-IsClosed exp (drops i error) c n h = raw_drops-IsClosed exp i error (raw_at i c) c refl h
step-IsClosed exp fires c n h = fire-IsClosed c h
step-IsClosed exp fires_lost c n h = fire_lost-IsClosed c h
step-IsClosed exp connect_called c n h = elim n [ ]
step-IsClosed exp quit_called c n h = quit-IsClosed c h
step-IsClosed exp (disconnect_called reconnect) c n h =
    subst (λ b. IsClosed (disconnect exp b c)) (sym n) (disconnect-IsClosed exp c h)

run-IsClosed :
    (exp : ℕ → ℕ) (es : List Event) (c : BunClient)
    → All IsNoCall es
    → IsClosed c
    → IsClosed (run exp es c)
unfolding run
run-IsClosed exp [] c n h = h
run-IsClosed exp (e ∷ es) c n h =
    run-IsClosed exp es (step exp e c) n.1 (step-IsClosed exp e c n.0 h)

shut-IsClosed :
    (exp : ℕ → ℕ) (c : BunClient)
    → c.closed ≡ false
    → c.awaited ≡ []
    → All (λ i. i ≡ count c.older) c.retried
    → IsClosed (disconnect exp false c) × IsClosed (quit c)
unfolding disconnect quit close_raw
shut-IsClosed exp c o a r = (
  if_false (c.closed && true) c _ (rw o refl) (record {
    closing = refl;
    closed = refl;
    ended = refl;
    no_timer = refl;
    not_awaited = a;
    current = r;
    silent = refl;
  }),
  if_false c.closed _ _ o (record {
    closing = refl;
    closed = refl;
    ended = refl;
    no_timer = refl;
    not_awaited = a;
    current = r;
    silent = refl;
  }),
)

-- Once the client, which is not closed and in which no `connect` is under way and timers wait for
-- the current raw client only, is disconnected for good or has quit, its status stays `end`,
-- whatever the runtime then does with its raw clients and its timers, and however often it is
-- disconnected for good or quits, until `connect` is called or it is disconnected for a
-- reconnection.
pub stays_ended :
    (exp : ℕ → ℕ) (c : BunClient) (es : List Event)
    → c.closed ≡ false
    → c.awaited ≡ []
    → All (λ i. i ≡ count c.older) c.retried
    → All IsNoCall es
    → (status (run exp es (disconnect exp false c)) ≡ end) × (status (run exp es (quit c)) ≡ end)
unfolding status
stays_ended exp c es o a r n =
    let h = shut-IsClosed exp c o a r in
    (
      IsClosed-status _ (run-IsClosed exp es _ n h.0),
      IsClosed-status _ (run-IsClosed exp es _ n h.1),
    )

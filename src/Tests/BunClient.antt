-- ===== src/Tests/BunClient.antt =====
-- Connections of src/classes/bun-redis-client.ts that are closed, drop and come back.
use bullmq.BunClient.Scripting.{
  LuaScript, shas, to_load, ensure_scripts_loaded, ensure_scripts_loaded-known,
}
use bullmq.Shared.{
  All, ◌||◌, false, String, Outcome, returns, has, IsDistinct, ℕ, suc, ◌*◌, ◌≡◌, refl, true, [],
  ◌∷◌, some, ◌≤◌,
}
use bullmq.BunClient.{
  wait, ready, end, BunClient, is_ready, closes, errors, status, new, count, disconnect, quit,
  setup_callbacks, connect, connected, on_connect, on_close, schedule_reconnect, reconnect_delay,
  fire, on_timer,
}
use bullmq.BunClient.Steps.{
  connects, fails, drops, fires, fires_lost, connect_called, quit_called, disconnect_called, run,
  step, raw_connects, raw_drops, raw_fails,
}
use bullmq.BunClient.Closing.{stays_ended}
use bullmq.BunClient.Undone.{connect_undoes}
use bullmq.BunClient.Reconnecting.{drop_reconnects}

abbrev exp : ℕ → ℕ
exp n = n * 272

abbrev opening : BunClient
opening = run exp (connect_called ∷ []) new

abbrev in_use : BunClient
in_use = run exp (connects 0 ∷ []) opening

abbrev dropped : BunClient
dropped = run exp (drops 0 true ∷ []) in_use

opening_status : status opening ≡ wait
unfolding status run step connect setup_callbacks new
opening_status = refl

in_use_status : status in_use ≡ ready
unfolding status run step connect setup_callbacks new raw_connects on_connect connected
in_use_status = refl

-- The first delay is raised to 1000.
dropped_timer : dropped.timer ≡ some 1000
unfolding run step connect setup_callbacks new raw_connects on_connect connected raw_drops on_close
    schedule_reconnect reconnect_delay
dropped_timer = refl

dropped_emitted : dropped.emitted ≡ is_ready ∷ closes ∷ errors ∷ []
unfolding run step connect setup_callbacks new raw_connects on_connect connected raw_drops on_close
    schedule_reconnect
dropped_emitted = refl

-- A reconnection that fails twice waits longer and longer.
retried_timer :
    (run exp (fires ∷ fails 1 ∷ fires ∷ fails 2 ∷ fires ∷ fails 3 ∷ []) dropped).timer ≡ some 1088
unfolding run step connect setup_callbacks new raw_connects on_connect connected raw_drops on_close
    schedule_reconnect reconnect_delay fire on_timer raw_fails
retried_timer = refl

stays_ended_example :
    (status (
        run exp
          (connects 0 ∷ drops 0 false ∷ fires ∷ fires_lost ∷ quit_called ∷ [])
          (disconnect exp false in_use))
      ≡ end)
    × (status (
          run exp
            (connects 0 ∷ drops 0 false ∷ fires ∷ fires_lost ∷ quit_called ∷ [])
            (quit in_use))
        ≡ end)
unfolding run step connect setup_callbacks new raw_connects on_connect connected
stays_ended_example =
    stays_ended exp in_use (connects 0 ∷ drops 0 false ∷ fires ∷ fires_lost ∷ quit_called ∷ []) refl
      refl tt (tt, (tt, (tt, (tt, (tt, tt)))))

connect_undoes_example :
    ((status (disconnect exp false opening) ≡ end) × (status (quit opening) ≡ end))
    × ((status (run exp (disconnect_called false ∷ connects 0 ∷ []) opening) ≡ ready)
        × (status (run exp (quit_called ∷ connects 0 ∷ []) opening) ≡ ready))
unfolding run step connect setup_callbacks new
connect_undoes_example = connect_undoes exp opening refl refl

drop_reconnects_example :
    let d =
      run exp (disconnect_called false ∷ []) (step exp (drops (count in_use.older) true) in_use) in
    ((delay : ℕ) × ((d.timer ≡ some delay) × ((1000 ≤ delay) × (delay ≤ 20000))))
    × (status (run exp (fires ∷ connects (suc (count in_use.older)) ∷ []) d) ≡ ready)
unfolding run step connect setup_callbacks new raw_connects on_connect connected
drop_reconnects_example =
    drop_reconnects exp in_use true (disconnect_called false ∷ []) refl refl refl refl (refl, tt)

abbrev one : LuaScript
one = record { sha = "1"; lua = "return 1"; number_of_keys = 0 }

abbrev two : LuaScript
two = record { sha = "2"; lua = "return 2"; number_of_keys = 0 }

abbrev loads : LuaScript → Outcome String (Unit {0})
loads s = returns tt

loading_sent : (ensure_scripts_loaded loads (one ∷ two ∷ one ∷ two ∷ []) ("2" ∷ [])).sent ≡ one ∷ []
unfolding ensure_scripts_loaded to_load
loading_sent = refl

ensure_scripts_loaded-known_example :
    let l = ensure_scripts_loaded loads (one ∷ two ∷ one ∷ []) ("2" ∷ []) in
    All (λ s. has ("2" ∷ []) s.sha ≡ false) l.sent
    × IsDistinct (shas l.sent)
    × (l.result ≡ returns tt
        → (sha : String)
        → has l.loaded sha ≡ (has ("2" ∷ []) sha || has (shas (one ∷ two ∷ one ∷ [])) sha))
ensure_scripts_loaded-known_example =
    ensure_scripts_loaded-known loads (one ∷ two ∷ one ∷ []) ("2" ∷ [])

-- ===== src/Tests/Sources.antt =====
-- The theorems on the message sources at concrete messages.
use flowscape.Base.{
  ℕ, zero, suc, ◌*◌, ◌^◌, ◌≤◌, min, true, false, ◌≡◌, refl, List, [], ◌∷◌, ◌++◌, map, arith, length,
  take,
}
use flowscape.Protocol.{Message, snapshot, tick, is_tick}
use flowscape.Transport.Types.{
  max_buffer, report, retry_after, dial, connecting, closed, deliver, delivered,
}
use flowscape.Transport.WsClient.{
  WsClient, hang_up_if, opened, arrived, dropped, fired, pauses, closes, step, run,
}
use flowscape.Transport.Demo
use flowscape.Transport.Demo.{receive_all}
use flowscape.Transport.Pausing.{ticks, others, IsValid, step-IsValid}
use flowscape.Transport.Pauses.{pause_over, pause-delivers, pause-overflows}
use flowscape.Transport.Backoff.{failures, waits, backoff-failures, IsBounded, Waits, run-Waits}
use flowscape.Transport.DemoPauses.{demo_pause-delivers}
use flowscape.Transport.Faults.{reconnect, stale_ticks-delivered, close_undone}
use flowscape.Tests.{graph_snapshot, edge_tick, gone_tick_e1}

-- A snapshot between two ticks.
abbrev three : List Message
three = tick edge_tick ∷ snapshot graph_snapshot ∷ tick gone_tick_e1 ∷ []

three-fit : length (ticks three) ≤ max_buffer
unfolding ticks is_tick
three-fit = omega arith

abbrev client : WsClient
client = record {
  ws = true;
  backoff = 1000;
  buffer = [];
  overflowed = false;
  closed = false;
  paused = false;
}

client-IsValid : IsValid client
unfolding ticks
client-IsValid = record { bounded = omega arith; only_ticks = refl; flowing = λ e. (refl, refl) }

pause-delivers_example :
    run client (pause_over three) ≡ (client, map deliver (others three ++ ticks three))
pause-delivers_example = pause-delivers client three client-IsValid refl three-fit

abbrev many : ℕ → List Message
many zero = []
many (suc n) = tick edge_tick ∷ many n

ticks-many : (n : ℕ) → length (ticks (many n)) ≡ n
unfolding ticks is_tick
ticks-many zero = refl
ticks-many (suc n) = omega (arith, ticks-many n)

pause-overflows_example :
    let r = run client (pause_over (many 601)) in
    (r.1 ≡ map deliver (others (many 601)) ++ hang_up_if true)
    × (r.0.buffer ≡ [])
    × (r.0.overflowed ≡ false)
    × (r.0.paused ≡ false)
pause-overflows_example =
    pause-overflows client (many 601) client-IsValid refl (omega (arith, ticks-many 601))

held-IsValid : IsValid (record client { paused = true })
unfolding ticks
held-IsValid = record { bounded = omega arith; only_ticks = refl; flowing = λ e. (refl, refl) }

step-IsValid_example : IsValid (step (record client { paused = true }) (arrived (tick edge_tick))).0
step-IsValid_example =
    step-IsValid (record client { paused = true }) (arrived (tick edge_tick)) held-IsValid

backoff-failures_example :
    waits (step (run client (failures 5)).0 dropped).1 ≡ min (1000 * 2 ^ 5) 10000 ∷ []
backoff-failures_example = backoff-failures 5 client refl (omega arith)

run-Waits_example :
    let r = run client (dropped ∷ fired ∷ dropped ∷ fired ∷ opened ∷ []) in
    IsBounded r.0 × Waits r.1
run-Waits_example =
    run-Waits (dropped ∷ fired ∷ dropped ∷ fired ∷ opened ∷ []) client
      (record { at_least = omega arith; at_most = omega arith })

demo_pause-delivers_example :
    let paused = (Demo.set_paused (record { paused = false; buffer = [] }) true).0 in
    let after = receive_all paused (many 700) in
    let resumed = Demo.set_paused after.0 false in
    (after.1 ++ resumed.1 ≡ map deliver (others (many 700) ++ take max_buffer (ticks (many 700))))
    × (resumed.0 ≡ record { paused = false; buffer = [] })
demo_pause-delivers_example =
    demo_pause-delivers (record { paused = false; buffer = [] }) (many 700) refl refl

stale_ticks-delivered_example :
    delivered
      (run client
        (pauses true ∷ (map arrived three ++ (reconnect graph_snapshot ++ (pauses false ∷ []))))).1
    ≡ others three ++ (snapshot graph_snapshot ∷ ticks three)
stale_ticks-delivered_example =
    stale_ticks-delivered client three graph_snapshot client-IsValid refl refl three-fit

close_undone_example :
    let r = run client (dropped ∷ closes ∷ fired ∷ []) in
    (r.1 ≡ report closed ∷ retry_after 1000 ∷ report connecting ∷ dial ∷ [])
    × (r.0.closed ≡ false)
    × (r.0.ws ≡ true)
close_undone_example = close_undone client refl

-- ===== src/Transport/Faults.antt =====
-- Where the WebSocket client does other than it means to.
use flowscape.Base.{
  ◌≤◌, true, false, ◌≡◌, refl, ◌∙◌, ap, List, [], ◌∷◌, ◌++◌, map, arith, length, ap₂,
}
use mathlib.Core.List.{append-nil}
use flowscape.Protocol.{Message, Snapshot, snapshot, is_tick}
use flowscape.Transport.Types.{
  max_buffer, Effect, deliver, report, connecting, closed, dial, retry_after, hang_up,
}
use flowscape.Transport.WsClient
use flowscape.Transport.WsClient.{
  WsClient, Event, opened, arrived, dropped, fired, pauses, closes, step, run,
}
use flowscape.Transport.Types.{delivered}
use flowscape.Transport.Pausing.{ticks, others, IsValid}
use flowscape.Transport.Arrivals.{arrivals_fit}
use flowscape.Transport.Pauses.{run-append, pause_begins}

-- The connection is lost and made again in a pause, and the new one brings a snapshot.
abbrev pub reconnect : Snapshot → List Event
reconnect s = dropped ∷ fired ∷ opened ∷ arrived (snapshot s) ∷ []

delivered-append : (es fs : List Effect) → delivered (es ++ fs) ≡ delivered es ++ delivered fs
unfolding delivered
delivered-append [] fs = refl
delivered-append (deliver m ∷ es) fs = ap (◌∷◌ m) (delivered-append es fs)
delivered-append (report s ∷ es) fs = delivered-append es fs
delivered-append (dial ∷ es) fs = delivered-append es fs
delivered-append (retry_after n ∷ es) fs = delivered-append es fs
delivered-append (hang_up ∷ es) fs = delivered-append es fs

delivered-deliver : (ms : List Message) → delivered (map deliver ms) ≡ ms
unfolding delivered
delivered-deliver [] = refl
delivered-deliver (m ∷ ms) = ap (◌∷◌ m) (delivered-deliver ms)

-- A paused client whose connection is made again, and that is resumed then.
reconnects :
    (c : WsClient) (s : Snapshot)
    → c.paused ≡ true
    → c.closed ≡ false
    → c.overflowed ≡ false
    → delivered (run c (reconnect s ++ (pauses false ∷ []))).1 ≡ snapshot s ∷ c.buffer
unfolding run step delivered WsClient.on_close WsClient.connect WsClient.on_open WsClient.on_message
    WsClient.set_paused WsClient.resume is_tick
reconnects c s held alive clear =
    rw (alive, held, clear) (ap (◌∷◌ (snapshot s)) (rw (append-nil, delivered-deliver c.buffer)))

-- The ticks that arrived in a pause before the connection was made again are delivered after the
-- snapshot of the new connection, which is newer than they are.
pub stale_ticks-delivered :
    (c : WsClient) (ts : List Message) (s : Snapshot)
    → IsValid c
    → c.paused ≡ false
    → c.closed ≡ false
    → length (ticks ts) ≤ max_buffer
    → delivered (run c (pauses true ∷ (map arrived ts ++ (reconnect s ++ (pauses false ∷ []))))).1
      ≡ others ts ++ (snapshot s ∷ ticks ts)
unfolding run step
stale_ticks-delivered c ts s v flows alive fits =
    let (empty, clear) = v.flowing flows in
    let later = reconnect s ++ (pauses false ∷ []) in
    let held : WsClient = record c { paused = true } in
    let full : WsClient = record c { paused = true; buffer = c.buffer ++ ticks ts } in
    rw (pause_begins c flows, run-append (map arrived ts) later held)
      (rw (arrivals_fit ts held refl (omega (arith, ap length empty))) (
        delivered-append (map deliver (others ts)) (run full later).1
        ∙ ap₂ ◌++◌ (delivered-deliver (others ts)) (
            reconnects full s refl alive clear
            ∙ ap (◌∷◌ (snapshot s)) (ap (λ b. b ++ ticks ts) empty))))

-- A client that is closed while it waits to connect again connects all the same, and forgets that it
-- was closed.
pub close_undone :
    (c : WsClient)
    → c.closed ≡ false
    → let r = run c (dropped ∷ closes ∷ fired ∷ []) in
      (r.1 ≡ report closed ∷ retry_after c.backoff ∷ report connecting ∷ dial ∷ [])
      × (r.0.closed ≡ false)
      × (r.0.ws ≡ true)
unfolding run step WsClient.on_close WsClient.close WsClient.connect
close_undone c alive = rw alive (refl, refl, refl)

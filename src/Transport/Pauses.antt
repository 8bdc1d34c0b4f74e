-- ===== src/Transport/Pauses.antt =====
-- What a pause does to the stream of messages.
use flowscape.Base.{
  ◌≤◌, ◌<◌, true, false, ◌≡◌, refl, sym, ap, List, [], ◌∷◌, ◌++◌, map, length, arith, inr,
}
use mathlib.Core.List.{append-nil, append_assoc, map-append}
use flowscape.Protocol.{Message}
use flowscape.Transport.Types.{max_buffer, deliver, delivered}
use flowscape.Transport.WsClient.{
  WsClient, set_paused, resume, hang_up_if, Event, arrived, pauses, step, run,
}
use flowscape.Transport.Pausing.{ticks, others, IsValid}
use flowscape.Transport.Arrivals.{arrivals_fit, arrivals_overflow}

pub run-append :
    (es fs : List Event) (c : WsClient)
    → run c (es ++ fs) ≡ ((run (run c es).0 fs).0, (run c es).1 ++ (run (run c es).0 fs).1)
unfolding run
run-append [] fs c = refl
run-append (e ∷ es) fs c = rw (run-append es fs (step c e).0) (rw append_assoc)

delivered-deliver : (ms : List Message) → delivered (map deliver ms) ≡ ms
unfolding delivered
delivered-deliver [] = refl
delivered-deliver (m ∷ ms) = ap (◌∷◌ m) (delivered-deliver ms)

-- The events of a pause in which `ms` arrive.
abbrev pub pause_over : List Message → List Event
pause_over ms = pauses true ∷ (map arrived ms ++ (pauses false ∷ []))

pub pause_begins :
    (c : WsClient) → c.paused ≡ false → set_paused c true ≡ (record c { paused = true }, [])
unfolding set_paused
pause_begins c flows = rw flows

pub pause_ends :
    (c : WsClient) → c.paused ≡ true → set_paused c false ≡ resume (record c { paused = false })
unfolding set_paused
pause_ends c held = rw held

run_pause :
    (c : WsClient) (ms : List Message)
    → c.paused ≡ false
    → let r = run (record c { paused = true }) (map arrived ms) in
      let q = set_paused r.0 false in run c (pause_over ms) ≡ (q.0, r.1 ++ q.1)
unfolding run step
run_pause c ms flows = rw (pause_begins c flows) (
    rw (run-append (map arrived ms) (pauses false ∷ []) (record c { paused = true }))
      (rw append-nil))

-- A pause in which at most `max_buffer` ticks arrive loses and repeats nothing: the other messages are
-- delivered as they arrive and the ticks in order when it ends, and the client is as it was before.
pub pause-delivers :
    (c : WsClient) (ms : List Message)
    → IsValid c
    → c.paused ≡ false
    → length (ticks ms) ≤ max_buffer
    → run c (pause_over ms) ≡ (c, map deliver (others ms ++ ticks ms))
unfolding resume
pause-delivers c ms v flows fits =
    let (empty, clear) = v.flowing flows in
    let held : WsClient = record c { paused = true } in
    rw (run_pause c ms flows) (
      rw
        (
          arrivals_fit ms held refl (omega (arith, ap length empty)),
          pause_ends (record c { paused = true; buffer = c.buffer ++ ticks ms }) refl,
        )
        (rw (clear, empty, flows)
          (λ i. (
            record c { buffer = []; overflowed = false; paused = false },
            sym (map-append deliver (others ms) (ticks ms)) i,
          ))))

-- A pause in which more ticks arrive gives all of them up: it delivers the other messages alone, and
-- when it ends the socket is closed, for a fresh snapshot after the next connection.
pub pause-overflows :
    (c : WsClient) (ms : List Message)
    → IsValid c
    → c.paused ≡ false
    → max_buffer < length (ticks ms)
    → let r = run c (pause_over ms) in
      (r.1 ≡ map deliver (others ms) ++ hang_up_if c.ws)
      × (r.0.buffer ≡ [])
      × (r.0.overflowed ≡ false)
      × (r.0.paused ≡ false)
unfolding resume
pause-overflows c ms v flows many =
    let held : WsClient = record c { paused = true } in
    let (f, p, w, d) = arrivals_overflow ms held refl v.bounded (inr (omega arith)) in
    rw (run_pause c ms flows, pause_ends (run held (map arrived ms)).0 p)
      (rw (f, d, w) (refl, refl, refl, refl))

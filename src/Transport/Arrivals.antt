-- ===== src/Transport/Arrivals.antt =====
-- Messages that arrive at a paused client.
use flowscape.Base.{
  suc, ◌+◌, ◌≤◌, ◌<◌, true, false, ◌≡◌, refl, sym, ◌⊎◌, subst, ap, List, [], ◌∷◌, ◌++◌, map, length,
  length-append, arith, inl, inr, Bool-cases,
}
use native.Mathlib.Decide.{dec_lt}
use mathlib.Core.List.{append-nil, append_assoc}
use flowscape.Protocol.{Message, is_tick}
use flowscape.Transport.Types.{max_buffer, Effect, deliver}
use flowscape.Transport.WsClient
use flowscape.Transport.WsClient.{
  WsClient, on_message, set_paused, resume, hang_up_if, Event, arrived, opened, dropped, failed,
  fired, pauses, closes, step, run,
}
use flowscape.Transport.Pausing.{ticks, others, ticks-nil}

-- Messages that arrive in a pause.
module _ (c : WsClient) (held : c.paused ≡ true) where
  message_kept :
      (m : Message)
      → is_tick m ≡ true
      → length c.buffer < max_buffer
      → on_message c m ≡ (record c { buffer = c.buffer ++ (m ∷ []) }, [])
  unfolding on_message
  message_kept m t room = ground arith

  message_refused :
      (m : Message)
      → is_tick m ≡ true
      → max_buffer ≤ length c.buffer
      → on_message c m ≡ (record c { overflowed = true }, [])
  unfolding on_message
  message_refused m t full = ground arith

  message_passed : (m : Message) → is_tick m ≡ false → on_message c m ≡ (c, deliver m ∷ [])
  unfolding on_message
  message_passed m t = rw (held, t)

-- As long as the ticks fit, each is kept in order, and the other messages pass at once.
pub arrivals_fit :
    (ms : List Message) (c : WsClient)
    → c.paused ≡ true
    → length c.buffer + length (ticks ms) ≤ max_buffer
    → run c (map arrived ms) ≡ (record c { buffer = c.buffer ++ ticks ms }, map deliver (others ms))
unfolding run step ticks others
arrivals_fit [] c held fits = rw append-nil
arrivals_fit (m ∷ ms) c held fits = elim (Bool-cases (is_tick m)) [
  | inl t ↦
      let room : length c.buffer + suc (length (ticks ms)) ≤ max_buffer = rw t at fits in
      let kept : WsClient = record c { buffer = c.buffer ++ (m ∷ []) } in
      rw (message_kept c held m t (omega arith), t)
        (rw (arrivals_fit ms kept held (omega (arith, length-append c.buffer (m ∷ []))))
          (rw append_assoc))
  | inr o ↦ rw (message_passed c held m o, o) (rw (arrivals_fit ms c held (rw o at fits)))
]

-- Too many ticks, or an overflow that happened before.
abbrev pub Overflows : WsClient → List Message → Type 0
Overflows c ms = (c.overflowed ≡ true) ⊎ (max_buffer < length c.buffer + length (ticks ms))

-- What is left of the client when they arrived: it is known to have overflowed.
abbrev pub Overflowed : WsClient → List Message → WsClient.Result → Type 0
Overflowed c ms r =
    (r.0.overflowed ≡ true)
    × (r.0.paused ≡ true)
    × (r.0.ws ≡ c.ws)
    × (r.1 ≡ map deliver (others ms))

still :
    (m : Message) (ms : List Message) (c : WsClient)
    → is_tick m ≡ true
    → Overflows c (m ∷ ms)
    → Overflows (record c { buffer = c.buffer ++ (m ∷ []) }) ms
unfolding ticks
still m ms c t (inl over) = inl over
still m ms c t (inr over) =
    let over' : max_buffer < length c.buffer + suc (length (ticks ms)) = rw t at over in
    inr (omega (arith, length-append c.buffer (m ∷ [])))

run_arrived :
    (c c' : WsClient) (m : Message) (es : List Effect) (ms : List Message)
    → on_message c m ≡ (c', es)
    → run c (map arrived (m ∷ ms))
      ≡ ((run c' (map arrived ms)).0, es ++ (run c' (map arrived ms)).1)
unfolding run step
run_arrived c c' m es ms e = rw e

others-nil : [] ≡ map deliver (others [])
unfolding others
others-nil = refl

pub others_tick : (m : Message) (ms : List Message) → is_tick m ≡ true → others (m ∷ ms) ≡ others ms
unfolding others
others_tick m ms t = rw t

pub others_other :
    (m : Message) (ms : List Message) → is_tick m ≡ false → others (m ∷ ms) ≡ m ∷ others ms
unfolding others
others_other m ms t = rw t

pub ticks_other : (m : Message) (ms : List Message) → is_tick m ≡ false → ticks (m ∷ ms) ≡ ticks ms
unfolding ticks
ticks_other m ms t = rw t

pub arrivals_overflow :
    (ms : List Message) (c : WsClient)
    → c.paused ≡ true
    → length c.buffer ≤ max_buffer
    → Overflows c ms
    → Overflowed c ms (run c (map arrived ms))
unfolding run
arrivals_overflow [] c held bounded (inl over) = (over, held, refl, others-nil)
arrivals_overflow [] c held bounded (inr over) = absurd (omega (arith, ap length ticks-nil))
arrivals_overflow (m ∷ ms) c held bounded over = elim (Bool-cases (is_tick m)) [
  | inr o ↦
      let (f, p, w, d) = arrivals_overflow ms c held bounded (rw (ticks_other m ms o) at over) in
      subst (Overflowed c (m ∷ ms))
        (sym (run_arrived c c m (deliver m ∷ []) ms (message_passed c held m o)))
        (f, p, w, rw (others_other m ms o) (ap (◌∷◌ (deliver m)) d))
  | inl t ↦ elim (dec_lt (length c.buffer) max_buffer) [
    | yes room ↦
        let kept : WsClient = record c { buffer = c.buffer ++ (m ∷ []) } in
        let now = message_kept c held m t room in
        let (f, p, w, d) =
          arrivals_overflow ms kept held (omega (arith, length-append c.buffer (m ∷ [])))
            (still m ms c t over) in
        subst (Overflowed c (m ∷ ms)) (sym (run_arrived c kept m [] ms now))
          (f, p, w, rw (others_tick m ms t) d)
    | no full ↦
        let flagged : WsClient = record c { overflowed = true } in
        let now = message_refused c held m t (omega arith) in
        let (f, p, w, d) = arrivals_overflow ms flagged held bounded (inl refl) in
        subst (Overflowed c (m ∷ ms)) (sym (run_arrived c flagged m [] ms now))
          (f, p, w, rw (others_tick m ms t) d)
  ]
]

-- ===== src/Transport/Pausing.antt =====
-- The buffer of a paused client: what it holds, and that every method keeps it so.
use flowscape.Base.{
  ◌≤◌, Bool, true, false, ◌≡◌, refl, List, [], ◌∷◌, ◌++◌, length, length-append, arith,
  if◌then◌else◌,
}
use flowscape.Protocol.{Message, is_tick}
use flowscape.Transport.Types.{max_buffer}
use flowscape.Transport.WsClient
use flowscape.Transport.WsClient.{
  WsClient, on_message, set_paused, resume, hang_up_if, Event, arrived, opened, dropped, failed,
  fired, pauses, closes, step, run,
}

unfoldable pub ticks : List Message → List Message
ticks [] = []
ticks (m ∷ ms) = if is_tick m then m ∷ ticks ms else ticks ms

unfoldable pub others : List Message → List Message
others [] = []
others (m ∷ ms) = if is_tick m then others ms else m ∷ others ms

-- The buffer holds at most `max_buffer` messages, all of them ticks; without a pause it is empty and
-- nothing overflowed.
pub record IsValid (c : WsClient) : Type 0 where
  pub bounded : length c.buffer ≤ max_buffer
  pub only_ticks : ticks c.buffer ≡ c.buffer
  pub flowing : c.paused ≡ false → (c.buffer ≡ []) × (c.overflowed ≡ false)

ticks-append : (xs ys : List Message) → ticks (xs ++ ys) ≡ ticks xs ++ ticks ys
unfolding ticks
ticks-append [] ys = refl
ticks-append (x ∷ xs) ys = ground (arith, ticks-append xs ys)

ticks-single : (m : Message) → is_tick m ≡ true → ticks (m ∷ []) ≡ m ∷ []
unfolding ticks
ticks-single m h = rw h

on_message-IsValid : (c : WsClient) (m : Message) → IsValid c → IsValid (on_message c m).0
unfolding on_message
on_message-IsValid c m v =
    ground (arith, ticks-append c.buffer (m ∷ []), ticks-single m, length-append c.buffer (m ∷ []))

pub ticks-nil : ticks [] ≡ []
unfolding ticks
ticks-nil = refl

set_paused-IsValid : (c : WsClient) (p : Bool) → IsValid c → IsValid (set_paused c p).0
unfolding set_paused
set_paused-IsValid c p v = ground (arith, ticks-nil)

-- Every method and handler keeps the client valid: its buffer holds at most `max_buffer` messages, all
-- of them ticks, and nothing without a pause.
pub step-IsValid : (c : WsClient) (e : Event) → IsValid c → IsValid (step c e).0
unfolding step WsClient.connect WsClient.on_open WsClient.on_close WsClient.on_error WsClient.close
step-IsValid c (arrived m) v = on_message-IsValid c m v
step-IsValid c (pauses p) v = set_paused-IsValid c p v
step-IsValid c opened v = ground arith
step-IsValid c dropped v = ground arith
step-IsValid c failed v = v
step-IsValid c fired v = ground arith
step-IsValid c closes v = ground arith

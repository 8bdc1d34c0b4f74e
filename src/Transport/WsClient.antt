-- ===== src/Transport/WsClient.antt =====
-- The class `WSClient` of web/src/ws-client.ts. The socket is a parameter of the world: its handlers
-- are the events `opened`, `arrived`, `dropped` and `failed`, a timer that runs out is `fired`. Each
-- method and handler returns the new state and its effects in order.
use flowscape.Base.{
  ℕ, ◌*◌, min, Bool, true, false, ◌&&◌, List, [], ◌∷◌, ◌++◌, map, length, leb, if◌then◌else◌,
}
use flowscape.Protocol.{Message, is_tick}
use flowscape.Transport.Types.{
  connecting, established, closed, max_buffer, Effect, deliver, report, dial, retry_after, hang_up,
}

-- `ws` says that `this.ws` is not null.
pub record WsClient : Type 0 where
  pub ws : Bool
  pub backoff : ℕ
  pub buffer : List Message
  pub overflowed : Bool
  pub closed : Bool
  pub paused : Bool

abbrev pub Result : Type 0
Result = WsClient × List Effect

unfoldable pub init : WsClient
init = record {
  ws = false;
  backoff = 1000;
  buffer = [];
  overflowed = false;
  closed = false;
  paused = false;
}

unfoldable pub connect : WsClient → Result
connect c = (record c { closed = false; ws = true }, report connecting ∷ dial ∷ [])

unfoldable pub on_open : WsClient → Result
on_open c = (record c { backoff = 1000 }, report established ∷ [])

unfoldable pub on_message : WsClient → Message → Result
on_message c m =
    if c.paused && is_tick m
    then (if leb max_buffer (length c.buffer)
        then (record c { overflowed = true }, [])
        else (record c { buffer = c.buffer ++ (m ∷ []) }, []))
    else (c, deliver m ∷ [])

unfoldable pub on_close : WsClient → Result
on_close c =
    let down = record c { ws = false } in
    if c.closed then (down, report closed ∷ []) else (
      record down { backoff = min (c.backoff * 2) 10000 },
      report closed ∷ retry_after c.backoff ∷ [],
    )

unfoldable pub on_error : WsClient → Result
on_error c = (c, hang_up ∷ [])

-- `this.ws?.close()`
abbrev pub hang_up_if : Bool → List Effect
hang_up_if ws = if ws then hang_up ∷ [] else []

abbrev pub same : Bool → Bool → Bool
same true b = b
same false b = if b then false else true

unfoldable pub resume : WsClient → Result
resume c =
    if c.overflowed
    then (record c { buffer = []; overflowed = false }, hang_up_if c.ws)
    else (record c { buffer = [] }, map deliver c.buffer)

unfoldable pub set_paused : WsClient → Bool → Result
unfolding resume
set_paused c p =
    if same c.paused p
    then (c, [])
    else (if p then (record c { paused = true }, []) else resume (record c { paused = false }))

unfoldable pub close : WsClient → Result
close c = (record c { closed = true }, hang_up_if c.ws)

pub data Event : Type 0 where
  opened : Event
  arrived : Message → Event
  dropped : Event
  failed : Event
  fired : Event
  pauses : Bool → Event
  closes : Event

unfoldable pub step : WsClient → Event → Result
step c opened = on_open c
step c (arrived m) = on_message c m
step c dropped = on_close c
step c failed = on_error c
step c fired = connect c
step c (pauses p) = set_paused c p
step c closes = close c

unfoldable pub run : WsClient → List Event → Result
run c [] = (c, [])
run c (e ∷ es) =
    let (c', effects) = step c e in let (c'', rest) = run c' es in (c'', effects ++ rest)

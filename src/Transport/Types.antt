-- ===== src/Transport/Types.antt =====
-- `ConnState` and `MAX_BUFFER` of web/src/ws-client.ts, and what a message source does to the world.
-- `established` is the state that the source calls `open`.
use flowscape.Base.{ℕ, List, [], ◌∷◌}
use flowscape.Protocol.{Message}

pub data ConnState : Type 0 where
  connecting established closed : ConnState

abbrev pub max_buffer : ℕ
max_buffer = 600

-- `onMessage(m)`, `onState(s)`, `new WebSocket(url)`, `setTimeout(() => this.connect(), ms)` and the
-- `close()` of the socket.
pub data Effect : Type 0 where
  deliver : Message → Effect
  report : ConnState → Effect
  dial : Effect
  retry_after : ℕ → Effect
  hang_up : Effect

-- The messages among the effects, in order.
unfoldable pub delivered : List Effect → List Message
delivered [] = []
delivered (deliver m ∷ es) = m ∷ delivered es
delivered (report s ∷ es) = delivered es
delivered (dial ∷ es) = delivered es
delivered (retry_after n ∷ es) = delivered es
delivered (hang_up ∷ es) = delivered es

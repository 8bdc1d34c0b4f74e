-- ===== src/Transport/Demo.antt =====
-- The class `DemoTransport` of web/src/demo-transport.ts, past the start of the WebAssembly module,
-- which loads a script and is not modelled.
use flowscape.Base.{Bool, true, false, ◌&&◌, List, [], ◌∷◌, ◌++◌, map, length, ltb, if◌then◌else◌}
use flowscape.Protocol.{Message, is_tick}
use flowscape.Transport.Types.{max_buffer, Effect, deliver}
use flowscape.Transport.WsClient.{same}

pub record Demo : Type 0 where
  pub paused : Bool
  pub buffer : List Message

abbrev pub Result : Type 0
Result = Demo × List Effect

unfoldable pub init : Demo
init = record { paused = false; buffer = [] }

-- The callback that `start` hands to the module.
unfoldable pub on_message : Demo → Message → Result
on_message d m =
    if d.paused && is_tick m
    then (if ltb (length d.buffer) max_buffer
        then (record d { buffer = d.buffer ++ (m ∷ []) }, [])
        else (d, []))
    else (d, deliver m ∷ [])

unfoldable pub set_paused : Demo → Bool → Result
set_paused d p =
    if same d.paused p
    then (d, [])
    else (if p
        then (record d { paused = true }, [])
        else (record d { paused = false; buffer = [] }, map deliver d.buffer))

unfoldable pub receive_all : Demo → List Message → Result
receive_all d [] = (d, [])
receive_all d (m ∷ ms) =
    let (d', effects) = on_message d m in
    let (d'', rest) = receive_all d' ms in (d'', effects ++ rest)

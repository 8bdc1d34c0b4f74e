-- ===== src/Lib.antt =====
-- The web client of Flowscape (web/src), which draws the network flows of a cluster as a live graph.
--
-- A server sends a `hello`, a `snapshot` of the graph and then ticks (web/src/protocol.ts). They arrive
-- over a WebSocket that connects again when it is lost and holds ticks back while the user pauses
-- (web/src/ws-client.ts), or from a demo in the browser (web/src/demo-transport.ts). `onMessage` of
-- web/src/main.ts hands them to `GraphState` (web/src/graph-state.ts), which keeps nodes, edges, a ring
-- of per-second counters for each edge, and the sets of ids that were added, removed or touched since
-- the renderer last asked. On each frame `applyChanges` consumes these sets and updates what is drawn.
--
-- Base: lists, integers for seconds, `Dict` for `Map<string, V>` and `StringSet` for `Set<string>`, and
--   `Numbers`, the operations on the coordinates that the client computes with. `Doubles` has the
--   rounding of the rates, on which the width of an arc depends.
-- Protocol: the message types. A verdict is an enumeration, a time or a counter a natural number.
-- GraphState.Types: `NodeState`, `EdgeState`, `Changes`, the fields of `GraphState`.
-- GraphState.Ring: `setBucket`, `addBucket`, `rate`, `series`. The ring is a list of counters modulo
--   2 ^ 32 beside a list of epochs. Below it: the slot of a second (Slots), the counters of a slot
--   (Cells), what is read after a write (Reads), the history that a ring stands for (History), the
--   window of `rate` and `series` (Window), the buckets of a snapshot (Buckets).
-- GraphState.Operations: `upsertNode`, `upsertEdge`, `removeEdge`, `removeNode` (in Upserts),
--   `applySnapshot`, `applyTick`, `consume`; `receive` is `onMessage`.
-- GraphState.Pending: the sets of ids against what is on the screen. Flags has one id's view of them,
--   Edges, Nodes, Ticks and Snapshots follow it through the operations, Rendering and InStep specify
--   the frames of a renderer that never runs out of slots, Resync has the ids after a snapshot, Lost
--   the removals that get lost.
-- Transport.WsClient: each method and handler as a function that returns the new client and its
--   effects; an event is what the world does (the socket opens, brings a message, drops, a timer runs
--   out) or a call by the user. Transport.Demo: the callback and the pause of the demo.
-- Layout: web/src/layout.ts. Grouping has the loop over the nodes and Rebuild the rest of `rebuild` and
--   `control`; the order of texts and `localeCompare` are arguments. Groups and Coverage say which
--   nodes get a target.
-- Nodes: the slots of web/src/nodes.ts (Types, Operations, Update); Pool and Release say how ids and
--   indices belong together, Calls that it stays so; Labels is about the labels.
-- Edges: the slots of web/src/edges.ts (Types, Operations); Cells and Ownership say how ids and slots
-- belong
--   together, Placing, Vacating, Steps and Calls that it stays so, Lookups what the pointer finds and
--   what a new rate does to an arc, Setters what the others leave in its slot.
-- Particles: web/src/particles.ts. Sweep is its loop, over elements of any type, with `kill` inside;
--   Sparks has `spawn` and what the loop does to one spark. Turns and Sweeping follow the loop.
-- Theme: the colours of web/src/theme.ts, with the cache of hues.
-- Selection: the pointer and the selection (web/src/picking.ts, `onHover`, `onClick` and `select` of
--   web/src/main.ts), as handlers of events; InStep has what is marked against what is hovered.
-- Filters: the controls (web/src/filters.ts) and which edges they hide; Solo and
--   Alone are about the chips of namespaces, Visible about the reasons to hide an edge, Status about
--   the status line.
-- Panel: web/src/panel.ts. Escape is `esc`, Rows `edgeList`, Pages `show`, `refresh` and `render`; Sorted
--   is about the rows, Shown about the selection of the panel, Gone about that of web/src/main.ts, with
--   what the panel calls of it.
-- Refresh: the body of the loop of `refreshRates`, which puts rates, filters and arcs together. Drawn and
--   Kept say what it makes of the arc of its edge and leaves of the others.
-- Platforms: `sync` and `setDimmed` of web/src/platforms.ts, Synced what `sync` leaves.
-- Frames: `applyChanges` of web/src/main.ts on the real layout, nodes, arcs, chips and sparks (Types,
--   Operations). ArcIds and NodeIds say which ids its loops leave on the screen, Refined and Showing
--   that it does what GraphState.Pending.Rendering says of sets of ids, Runs has runs of messages and
--   `applyChanges` from the start on, InStep when the screen is exactly what the graph has. The
--   renderer's free slots are a hypothesis there. Rates is
--   `refreshRates` past the platforms and the panel, Rated is about what it leaves, Seen about
--   the reasons to hide a node.
-- Tests: the theorems at concrete messages.
--
-- Loops are recursions on the list or the number of seconds that the source's loop runs over. The
-- `while` of web/src/particles.ts takes fuel: as many turns as sparks live, since each turn either
-- goes on to the next or has one fewer. So does the count of the bits of a double: no double has more
-- than the 2098 that it is given. `max_buffer` is 600 as in the source, and the ring has the
-- size `retention`. The capacities of the nodes, of the sparks and of a batch of arcs are arguments.
-- The ray that finds what is under a position is an argument of the handlers of the pointer.
--
-- Not modelled: three.js and what is drawn with it (web/src/scene.ts, the meshes and buffers of the
-- other parts), the HTML around the panels' texts, and the server.
pub mod Base
pub mod Protocol
pub mod GraphState
pub mod Transport
pub mod Layout
pub mod Nodes
pub mod Edges
pub mod Particles
pub mod Theme
pub mod Filters
pub mod Refresh
pub mod Selection
pub mod Panel
pub mod Frames
pub mod Platforms
pub mod Tests

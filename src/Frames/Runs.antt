-- ===== src/Frames/Runs.antt =====
-- Runs of messages and `applyChanges` from the start of web/src/main.ts on.
use flowscape.Base.{ℕ, String, Bool, true, false, ◌≡◌, refl, List, [], ◌∷◌, foldl, map}
use flowscape.Base.Dict
use flowscape.Base.Numbers.{Numbers}
use flowscape.Protocol.{Message}
use flowscape.GraphState.Types
use flowscape.GraphState.Operations.{consume}
use flowscape.GraphState.Pending.Rendering.{Screen, start, frame, implies, frames-show}
use flowscape.Filters.Types as Controls
use flowscape.Filters.Types.{GroupBy}
use flowscape.Layout.Types as Places
use flowscape.Nodes.Operations as Slots
use flowscape.Edges.Operations as Arcs
use flowscape.Edges.Ownership.{init-IsValid}
use flowscape.Particles.Sparks as Sparks
use flowscape.Frames.Types.{World}
use flowscape.Frames.Operations.{is_machine_mode, hear, next}
use flowscape.Frames.Refined.{HasRoom}
use flowscape.Frames.Showing.{IsShowing, next-IsShowing}

module _ (N : Numbers) {A : Type 0} (le locale_le : String → String → Bool) (head : String → String)
    (node_room edge_room spark_room : ℕ) (full : A) where
  -- The variables at the start, in one of the groupings.
  unfoldable pub begin : ℕ → ℕ → GroupBy → World N A
  begin retention window_sec by = record {
    graph = Types.init retention;
    layout = record (Places.init N) { group_by = by };
    nodes = Slots.init N node_room;
    arcs = Arcs.init edge_room full;
    filters = Controls.init window_sec;
    machines = [];
    unavailable = [];
    dirty = false;
    sparks = Sparks.init N spark_room;
  }

  -- A frame: the messages before it, its `applyChanges`, and the random numbers of its sparks.
  abbrev pub Frame : Type 0
  Frame = (ℕ → N.R × N.R) × List Message

  abbrev pub after : World N A → Frame → World N A
  after w (random, messages) =
      next N le locale_le head node_room edge_room spark_room full random w messages

  -- Each frame finds room for what it takes up.
  abbrev pub AllHaveRoom : World N A → List Frame → Type 0
  AllHaveRoom w [] = Unit {0}
  AllHaveRoom w (f ∷ frames) =
      let w' = foldl (hear N le locale_le head node_room edge_room spark_room full) w f.1 in
      HasRoom N le locale_le head node_room edge_room spark_room full (consume w'.graph).0
        (record w' { graph = (consume w'.graph).1 })
      × AllHaveRoom (after w f) frames

  abbrev Shows : World N A → Screen → Type 0
  Shows = IsShowing N le locale_le head node_room edge_room spark_room full

  frames-IsShowing :
      (frames : List Frame) (w : World N A) (s : Screen)
      → Shows w s
      → AllHaveRoom w frames
      → Shows (foldl after w frames) (foldl frame s (map (λ f. f.1) frames))
  frames-IsShowing [] w s k room = k
  frames-IsShowing (f ∷ frames) w s k room =
      frames-IsShowing frames (after w f) (frame s f.1)
        (next-IsShowing N le locale_le head node_room edge_room spark_room full f.0 w s f.1 k
          room.0)
        room.1

  pub begin-IsShowing :
      (retention window_sec : ℕ) (by : GroupBy)
      → Shows (begin retention window_sec by) (start retention (is_machine_mode by))
  unfolding begin start Types.init Slots.init Arcs.init Places.init Dict.has
  begin-IsShowing retention window_sec by = record {
    graph = refl;
    by_machine = refl;
    edges = λ x. refl;
    nodes = λ x. refl;
    clean = refl;
    filed = record { nodes = tt; edges = tt };
    valid = init-IsValid edge_room full;
  }

  -- From the start on, whatever the messages and however they fall between the frames, in each
  -- grouping: as long as each `applyChanges` finds room, after each of them every edge of the
  -- graph has a slot among the arcs and every node one among the nodes. A frame is here the
  -- messages before it and its `applyChanges`; `refreshRates` and a change of the grouping are no
  -- part of it.
  pub frames-slots :
      (retention window_sec : ℕ) (by : GroupBy) (frames : List Frame) (x : String)
      → AllHaveRoom (begin retention window_sec by) frames
      → let w = foldl after (begin retention window_sec by) frames in
        (implies (Dict.has x w.graph.edges) (Dict.has x w.arcs.slots) ≡ true)
        × (implies (Dict.has x w.graph.nodes) (Dict.has x w.nodes.slots) ≡ true)
  frames-slots retention window_sec by frames x room =
      let k =
        frames-IsShowing frames (begin retention window_sec by)
          (start retention (is_machine_mode by)) (begin-IsShowing retention window_sec by) room in
      let shown = frames-show retention (is_machine_mode by) (map (λ f. f.1) frames) x in
      (rw (k.graph, k.edges x) shown.0, rw (k.graph, k.nodes x) shown.1)

-- ===== src/Frames/InStep.antt =====
-- The screen against the graph after the frames of web/src/main.ts: what is on it is exactly what the
-- graph has.
use flowscape.Base.{ℕ, String, Bool}
use flowscape.Base.Dict
use flowscape.Base.Numbers.{Numbers}
use flowscape.GraphState.Pending.Rendering.{Screen}
use flowscape.GraphState.Pending.InStep.{IsInStep}
use flowscape.Frames.Types.{World}
use flowscape.Frames.Operations.{is_machine_mode}
use flowscape.Frames.ArcIds.{on}
use flowscape.Frames.NodeIds.{shown}

module _ (N : Numbers) {A : Type 0} (le locale_le : String → String → Bool) (head : String → String)
    (node_room edge_room spark_room : ℕ) (full : A) where
  -- The ids that have a slot.
  abbrev pub screen_of : World N A → Screen
  screen_of w = record {
    graph = w.graph;
    by_machine = is_machine_mode w.layout.group_by;
    edges = on edge_room full w.arcs;
    nodes = shown N w.nodes;
  }

  -- The arcs and the nodes that have slots are exactly the edges and the nodes of the graph, and
  -- nothing is noted for the next frame.
  abbrev pub IsSynced : World N A → Type 0
  IsSynced w = IsInStep (screen_of w)

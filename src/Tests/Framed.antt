-- ===== src/Tests/Framed.antt =====
-- The theorems on `applyChanges` of web/src/main.ts, with room for four nodes and four arcs.
use flowscape.Base.{
  ℕ, String, Bool, true, false, ◌≡◌, refl, List, [], ◌∷◌, foldl, none, map, length, arith,
}
use flowscape.Base.Dict
use flowscape.Base.StringSet
use flowscape.Filters.Types.{by_namespace}
use flowscape.GraphState.Types
use flowscape.GraphState.Operations.{consume, receive, apply_snapshot}
use flowscape.GraphState.Pending.Rendering.{start, frame, implies}
use flowscape.Layout.Rebuild.{rebuild}
use flowscape.Nodes.Types.{Nodes}
use flowscape.Edges.Types.{batch_of}
use flowscape.Frames.Types.{World}
use flowscape.Frames.Operations.{hear, next, drop_edges, drop_nodes, retint}
use flowscape.Frames.NodeIds.{missing}
use flowscape.Frames.Refined.{HasRoom}
use flowscape.Frames.Showing.{IsShowing, next-IsShowing}
use flowscape.Frames.Runs.{begin, after, begin-IsShowing, frames-slots}
use flowscape.Tests.{edge, graph_snapshot, edge_tick}
use flowscape.Protocol.{Message, snapshot, tick}
use flowscape.Tests.Places.{counted}

abbrev level : String → String → Bool
level a b = true

abbrev head : String → String
head id = "shop"

abbrev random : ℕ → ℕ × ℕ
random i = (1, 1)

abbrev world : World counted ℕ
world = begin counted level level head 4 4 4 100 10 60 by_namespace

abbrev messages : List Message
messages =
    snapshot (record graph_snapshot { edges = record (edge "e1") { buckets = none } ∷ [] }) ∷ []

abbrev heard : World counted ℕ
heard = foldl (hear counted level level head 4 4 4 100) world messages

-- The frame takes up one arc and two nodes.
one_arc : length (consume heard.graph).0.added_edges ≡ 1
unfolding consume hear receive apply_snapshot begin Types.init
    flowscape.GraphState.Operations.cancel flowscape.GraphState.Operations.snapshot_edge
    flowscape.GraphState.Operations.upsert_edge Dict.get flowscape.GraphState.Operations.upsert_node
    flowscape.GraphState.Operations.clear_graph Dict.put StringSet.add StringSet.has
    StringSet.delete StringSet.add_all Dict.keys
one_arc = refl

four_slots : length (batch_of (drop_edges 4 100 (consume heard.graph).0 heard.arcs) 0).free ≡ 4
unfolding consume hear receive apply_snapshot begin Types.init drop_edges
    flowscape.GraphState.Operations.cancel flowscape.GraphState.Operations.snapshot_edge
    flowscape.GraphState.Operations.upsert_edge Dict.get flowscape.GraphState.Operations.upsert_node
    flowscape.GraphState.Operations.clear_graph Dict.put StringSet.add StringSet.has
    StringSet.delete StringSet.add_all Dict.keys flowscape.Edges.Operations.init
four_slots = refl

abbrev kept_nodes : Nodes counted
kept_nodes =
    foldl (retint counted (consume heard.graph).1)
      (drop_nodes counted (consume heard.graph).0 heard.nodes) (consume heard.graph).0.touched_nodes

two_nodes :
    missing counted kept_nodes
      (rebuild counted level level heard.layout (consume heard.graph).1.nodes).targets
    ≡ 2
unfolding consume hear receive apply_snapshot begin Types.init
    flowscape.GraphState.Operations.cancel flowscape.GraphState.Operations.snapshot_edge
    flowscape.GraphState.Operations.upsert_edge Dict.get flowscape.GraphState.Operations.upsert_node
    flowscape.GraphState.Operations.clear_graph Dict.put StringSet.add StringSet.has
    StringSet.delete StringSet.add_all Dict.keys missing rebuild drop_nodes
    flowscape.Layout.Rebuild.place_reserved flowscape.Layout.Rebuild.set_targets
    flowscape.Layout.Types.init flowscape.Layout.Sorting.sort_by Dict.values Dict.modify
    flowscape.Layout.Grouping.classify flowscape.GraphState.Operations.attach
    flowscape.Layout.Rebuild.place_platforms flowscape.Layout.Grouping.push_to
    flowscape.Layout.Types.group_of flowscape.Layout.Rebuild.platform_for Dict.has
    flowscape.Nodes.Operations.init
two_nodes = refl

four_indices : length kept_nodes.free ≡ 4
unfolding consume hear receive apply_snapshot begin Types.init
    flowscape.GraphState.Operations.cancel flowscape.GraphState.Operations.snapshot_edge
    flowscape.GraphState.Operations.upsert_edge Dict.get flowscape.GraphState.Operations.upsert_node
    flowscape.GraphState.Operations.clear_graph Dict.put StringSet.add StringSet.has
    StringSet.delete StringSet.add_all Dict.keys missing drop_nodes flowscape.Nodes.Operations.init
four_indices = refl

room :
    HasRoom counted level level head 4 4 4 100
      (consume heard.graph).0
      (record heard { graph = (consume heard.graph).1 })
room = record {
  arcs = omega (arith, one_arc, four_slots);
  nodes = omega (arith, two_nodes, four_indices);
}

next-IsShowing_example :
    IsShowing counted level level head 4 4 4 100
      (next counted level level head 4 4 4 100 random world messages)
      (frame (start 10 false) messages)
next-IsShowing_example =
    next-IsShowing counted level level head 4 4 4 100 random world (start 10 false) messages
      (begin-IsShowing counted level level head 4 4 4 100 10 60 by_namespace) room

frames-slots_example :
    let w = foldl (after counted level level head 4 4 4 100) world ((random, messages) ∷ []) in
    (implies (Dict.has "e2" w.graph.edges) (Dict.has "e2" w.arcs.slots) ≡ true)
    × (implies (Dict.has "e2" w.graph.nodes) (Dict.has "e2" w.nodes.slots) ≡ true)
frames-slots_example =
    frames-slots counted level level head 4 4 4 100 10 60 by_namespace ((random, messages) ∷ [])
      "e2" (room, tt)

abbrev ticked : World counted ℕ
ticked = foldl (hear counted level level head 4 4 4 100) world (map tick (edge_tick ∷ []))

abbrev ticked_nodes : Nodes counted
ticked_nodes =
    foldl (retint counted (consume ticked.graph).1)
      (drop_nodes counted (consume ticked.graph).0 ticked.nodes)
      (consume ticked.graph).0.touched_nodes

-- ===== src/Tests/Rated.antt =====
-- The theorem on `refreshRates` of web/src/main.ts at one node and one edge.
use flowscape.Base.{ℕ, String, min, false, ◌↔◌, ◌≡◌, refl, [], ◌∷◌, some}
use flowscape.Base.Int.{pos}
use flowscape.Base.Dict
use flowscape.Base.Unique.{IsUnique}
use flowscape.GraphState.Types.{NodeState}
use flowscape.GraphState.Keyed.{IsFiled}
use flowscape.GraphState.Ring.{set_buckets, set_bucket, rate}
use flowscape.Filters.Types.{by_namespace}
use flowscape.Nodes.Types.{Slot}
use flowscape.Nodes.Operations as Slots
use flowscape.Edges.Ownership.{IsValid}
use flowscape.Frames.Types.{World}
use flowscape.Frames.Runs.{begin}
use flowscape.Frames.Seen.{IsNodeVisible}
use flowscape.Refresh.Drawn.{shown_of}
use flowscape.Frames.Rated.{after, AsDrawn, IsKept, refresh_rates-shown}
use flowscape.Tests.Places.{counted, node, level}
use flowscape.Tests.Arcs.{arcs, arcs-IsValid}
use flowscape.Tests.Refreshed.{busy_arc}

abbrev head : String → String
head id = "shop"

abbrev anchor : NodeState
anchor = node "m1" "reserved" "node"

abbrev anchor_slot : Slot counted
anchor_slot = Slots.new_slot counted anchor (record { x = 1; y = 2; z = 3 }) 0

-- The chip of the machine is off.
abbrev world : World counted ℕ
world =
    let w = begin counted level level head 4 2 4 100 10 60 by_namespace in
    record w {
      graph = record w.graph {
        nodes = (anchor.id, anchor) ∷ [];
        edges = (busy_arc.id, busy_arc) ∷ [];
      };
      filters = record w.filters { filters = record w.filters.filters { machines = "m1" ∷ [] } };
      nodes = record w.nodes { slots = (anchor.id, anchor_slot) ∷ [] };
      arcs = arcs;
    }

world-IsFiled : IsFiled world.graph
world-IsFiled = record { nodes = (refl, tt); edges = (refl, tt) }

one_node : IsUnique world.graph.nodes
unfolding Dict.has
one_node = (refl, tt)

one_edge : IsUnique world.graph.edges
unfolding Dict.has
one_edge = (refl, tt)

there_node : Dict.get anchor.id world.graph.nodes ≡ some anchor
unfolding Dict.get
there_node = refl

there_edge : Dict.get busy_arc.id world.graph.edges ≡ some busy_arc
unfolding Dict.get set_buckets set_bucket
there_edge = refl

there_slot : Dict.get anchor.id world.nodes.slots ≡ some anchor_slot
unfolding Dict.get
there_slot = refl

refresh_rates-shown_example :
    let w = after counted head 2 (pos 101) 101000 world [] in
    IsValid 2 w.0.arcs
    × AsDrawn counted head 2
        (pos 101)
        101000
        world
        []
        busy_arc
        (Dict.get busy_arc.id w.0.arcs.slots)
    × (Dict.get busy_arc.id w.1
        ≡ some (record {
          events = shown_of world.filters.filters (rate 10 busy_arc 60 (pos 101)).events;
          per = min 60 10;
        }))
    × ((t : Slot counted) × (Dict.get anchor.id w.0.nodes.slots ≡ some t)
        × ((t.hidden ≡ false) ↔ IsNodeVisible world.filters.filters anchor)
        × IsKept counted head 2 (pos 101) 101000 world [] anchor_slot t)
unfolding begin flowscape.GraphState.Types.init flowscape.Filters.Types.init
refresh_rates-shown_example =
    refresh_rates-shown counted head 2 (pos 101) 101000 world [] world-IsFiled one_node one_edge
      arcs-IsValid busy_arc there_edge anchor anchor_slot there_node there_slot

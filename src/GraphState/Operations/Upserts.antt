-- ===== src/GraphState/Operations/Upserts.antt =====
-- `upsertNode`, `upsertEdge`, `removeEdge` and `removeNode` of web/src/graph-state.ts. The object that
-- `upsertEdge` returns is the one that the map holds under its id.
use flowscape.Base.{
  ℕ, ◌*◌, max, String, Bool, false, not, ◌&&◌, [], Option, none, some, ◌===◌, if◌then◌else◌,
  replicate,
}
use flowscape.Base.Int.{negsuc}
use flowscape.Base.Dict
use flowscape.Base.Dict.{Dict}
use flowscape.Base.StringSet
use flowscape.Base.StringSet.{StringSet}
use flowscape.Protocol.{WireNode, WireEdge}
use flowscape.GraphState.Types.{NodeState, EdgeState, GraphState}

-- `if (x) y = x`, for an object.
abbrev pub or_keep {ℓ} : {A : Type ℓ} → Option A → Option A → Option A
or_keep none old = old
or_keep (some x) old = some x

-- `n.machine && n.machine !== machine`: the empty text is falsy.
unfoldable pub machine_moves : Option String → Option String → Bool
machine_moves none machine = false
machine_moves (some m) none = not (m === "")
machine_moves (some m) (some m') = not (m === "") && not (m === m')

-- `{ ...n, edges: new Set() }`
unfoldable pub new_node : WireNode → NodeState
new_node n = record {
  id = n.id;
  ns = n.ns;
  kind = n.kind;
  name = n.name;
  fqdn = n.fqdn;
  machine = n.machine;
  labels = n.labels;
  first = n.first;
  last = n.last;
  edges = [];
}

unfoldable pub merge_node : WireNode → NodeState → NodeState
unfolding machine_moves
merge_node n ns = record ns {
  last = max ns.last n.last;
  labels = or_keep n.labels ns.labels;
  machine = if machine_moves n.machine ns.machine then n.machine else ns.machine;
}

unfoldable pub upsert_node : GraphState → WireNode → GraphState
unfolding new_node merge_node
upsert_node g n = elim (Dict.get n.id g.nodes) [
  | none ↦ record g {
    nodes = Dict.put n.id (new_node n) g.nodes;
    added_nodes = StringSet.add n.id g.added_nodes;
    removed_nodes = StringSet.delete n.id g.removed_nodes;
  }
  | some ns ↦ record g {
    nodes = Dict.put n.id (merge_node n ns) g.nodes;
    touched_nodes =
        if machine_moves n.machine ns.machine
        then StringSet.add n.id g.touched_nodes
        else g.touched_nodes;
  }
]

abbrev pub or_zero : Option ℕ → ℕ
or_zero none = 0
or_zero (some x) = x

unfoldable pub new_edge : ℕ → WireEdge → EdgeState
new_edge retention e = record {
  id = e.id;
  src = e.src;
  dst = e.dst;
  proto = e.proto;
  port = e.port;
  totals = record { f = 0; d = 0; a = 0; e = 0 };
  last = e.last;
  latency_ms = or_zero e.latency_ms;
  l7 = e.l7;
  drops = e.drops;
  ring = replicate (retention * 4) 0;
  epochs = replicate retention (negsuc 0);
}

-- `ns.edges.add(id)` and `ns.edges.delete(id)`
unfoldable pub attach : String → NodeState → NodeState
attach id ns = record ns { edges = StringSet.add id ns.edges }

unfoldable pub detach : String → NodeState → NodeState
detach id ns = record ns { edges = StringSet.delete id ns.edges }

unfoldable pub upsert_edge : GraphState → WireEdge → GraphState
unfolding new_edge
upsert_edge g e = elim (Dict.get e.id g.edges) [
  | none ↦ record g {
    edges = Dict.put e.id (new_edge g.retention e) g.edges;
    added_edges = StringSet.add e.id g.added_edges;
    removed_edges = StringSet.delete e.id g.removed_edges;
    nodes = Dict.modify e.dst (attach e.id) (Dict.modify e.src (attach e.id) g.nodes);
  }
  | some es ↦ g
]

-- `if (!added.delete(id)) removed.add(id)`, the set of removals.
abbrev pub note_removed : String → StringSet → StringSet → StringSet
note_removed id added removed = if StringSet.has id added then removed else StringSet.add id removed

unfoldable pub remove_edge : GraphState → String → GraphState
remove_edge g id = elim (Dict.get id g.edges) [
  | none ↦ g
  | some e ↦ record g {
    edges = Dict.delete id g.edges;
    nodes = Dict.modify e.dst (detach id) (Dict.modify e.src (detach id) g.nodes);
    touched_edges = StringSet.delete id g.touched_edges;
    added_edges = StringSet.delete id g.added_edges;
    removed_edges = note_removed id g.added_edges g.removed_edges;
  }
]

unfoldable pub remove_node : GraphState → String → GraphState
remove_node g id =
    if Dict.has id g.nodes
    then record g {
      nodes = Dict.delete id g.nodes;
      touched_nodes = StringSet.delete id g.touched_nodes;
      added_nodes = StringSet.delete id g.added_nodes;
      removed_nodes = note_removed id g.added_nodes g.removed_nodes;
    }
    else g

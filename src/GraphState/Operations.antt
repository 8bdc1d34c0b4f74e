-- ===== src/GraphState/Operations.antt =====
-- The methods of the class `GraphState` in web/src/graph-state.ts. Each takes the state and returns
-- the new one.
mod Upserts
unfoldable pub use Upserts.*
use text.Mathlib.Text.{◌==◌}
use flowscape.Base.{
  ℕ, ◌+◌, ◌*◌, ◌/◌, max, String, Bool, true, false, not, ◌&&◌, List, [], ◌∷◌, ◌++◌, foldl, Option,
  none, some, ltb, eqb, ◌===◌, if◌then◌else◌, replicate,
}
use flowscape.Base.Int.{ℤ, pos, negsuc}
use flowscape.Base.Dict
use flowscape.Base.Dict.{Dict}
use flowscape.Base.StringSet
use flowscape.Base.StringSet.{StringSet}
use flowscape.Protocol.{WireNode, WireEdge, Bucket, Snapshot, Tick, Message, hello, snapshot, tick}
use flowscape.GraphState.Types.{Counts, NodeState, EdgeState, Changes, GraphState}
use flowscape.GraphState.Ring.{set_buckets, add_bucket}

-- `xs ?? []`
abbrev pub or_empty {ℓ} : {A : Type ℓ} → Option (List A) → List A
or_empty none = []
or_empty (some xs) = xs

-- The body of the loop over the edges of a snapshot, on the edge's object.
unfoldable pub load_edge : ℕ → WireEdge → EdgeState → EdgeState
unfolding set_buckets
load_edge retention e es =
    set_buckets retention (record es { totals = record { f = e.f; d = e.d; a = e.a; e = e.e } })
      (or_empty e.buckets)

unfoldable pub snapshot_edge : GraphState → WireEdge → GraphState
unfolding load_edge
snapshot_edge g e =
    let g' = upsert_edge g e in
    record g' { edges = Dict.modify e.id (load_edge g'.retention e) g'.edges }

-- `for (const id of added) if (removed.delete(id)) added.delete(id)`, over the ids that `added` had
-- when the loop began: it removes only the id that it stands at.
unfoldable pub cancel : List String → StringSet × StringSet → StringSet × StringSet
cancel [] sets = sets
cancel (id ∷ ids) (added, removed) = cancel ids (
    if StringSet.has id removed
    then (StringSet.delete id added, StringSet.delete id removed)
    else (added, removed))

-- The state when the loops over the snapshot begin.
unfoldable pub clear_graph : GraphState → GraphState
clear_graph g = record g {
  removed_nodes = StringSet.add_all (Dict.keys g.nodes) g.removed_nodes;
  removed_edges = StringSet.add_all (Dict.keys g.edges) g.removed_edges;
  nodes = [];
  edges = [];
  added_nodes = [];
  added_edges = [];
  touched_edges = [];
  touched_nodes = [];
}

unfoldable pub apply_snapshot : GraphState → Snapshot → GraphState
apply_snapshot g s =
    let g' = foldl snapshot_edge (foldl upsert_node (clear_graph g) s.nodes) s.edges in
    let nodes = cancel g'.added_nodes (g'.added_nodes, g'.removed_nodes) in
    let edges = cancel g'.added_edges (g'.added_edges, g'.removed_edges) in
    record g' {
      added_nodes = nodes.0;
      removed_nodes = nodes.1;
      added_edges = edges.0;
      removed_edges = edges.1;
      ts = s.ts;
      reset = true;
    }

-- The body of the loop over the edges of a tick, on the edge's object; 0 is falsy.
unfoldable pub count_edge : ℕ → ℤ → WireEdge → EdgeState → EdgeState
count_edge retention sec e es =
    let totals = es.totals in
    let counted = record es {
      totals = record {
        f = totals.f + e.f;
        d = totals.d + e.d;
        a = totals.a + e.a;
        e = totals.e + e.e;
      };
    } in
    record (add_bucket retention counted sec e.f e.d e.a e.e) {
      last = if ltb es.last e.last then e.last else es.last;
      l7 = or_keep e.l7 es.l7;
      drops = or_keep e.drops es.drops;
      latency_ms = if eqb (or_zero e.latency_ms) 0 then es.latency_ms else or_zero e.latency_ms;
    }

unfoldable pub tick_edge : ℤ → GraphState → WireEdge → GraphState
unfolding count_edge
tick_edge sec g e =
    let g' = upsert_edge g e in
    record g' {
      edges = Dict.modify e.id (count_edge g'.retention sec e) g'.edges;
      touched_edges = StringSet.add e.id g'.touched_edges;
    }

unfoldable pub apply_tick : GraphState → Tick → GraphState
apply_tick g t =
    let with_nodes = foldl upsert_node g (or_empty t.nodes) in
    let with_edges = foldl (tick_edge (pos (t.ts / 1000))) with_nodes (or_empty t.edges) in
    let without_edges = foldl remove_edge with_edges (or_empty t.gone.edges) in
    let without_nodes = foldl remove_node without_edges (or_empty t.gone.nodes) in
    record without_nodes { sparks = without_nodes.sparks ++ or_empty t.sparks; ts = t.ts }

unfoldable pub consume : GraphState → Changes × GraphState
consume g = (
  record {
    added_nodes = g.added_nodes;
    removed_nodes = g.removed_nodes;
    added_edges = g.added_edges;
    removed_edges = g.removed_edges;
    touched_edges = g.touched_edges;
    touched_nodes = g.touched_nodes;
    sparks = g.sparks;
    ts = g.ts;
    reset = g.reset;
  },
  record g {
    added_nodes = [];
    removed_nodes = [];
    added_edges = [];
    removed_edges = [];
    touched_edges = [];
    touched_nodes = [];
    sparks = [];
    reset = false;
  },
)

-- `onMessage` of web/src/main.ts, as far as it reaches the graph.
unfoldable pub receive : GraphState → Message → GraphState
receive g (hello h) = record g { retention = h.retention_s }
receive g (snapshot s) = apply_snapshot g s
receive g (tick t) = apply_tick g t

-- ===== src/GraphState/Pending/Ticks.antt =====
-- The books of the whole graph through a tick: nothing live is kept from the renderer.
use flowscape.Base.{◌/◌, String, Bool, foldl, foldl_keeps, ap, ===_iff, ◌===◌}
use flowscape.Base.StringSet
use flowscape.Base.Int.{ℤ, pos}
use flowscape.Protocol.{WireNode, WireEdge, Tick}
use flowscape.GraphState.Types.{GraphState}
use flowscape.GraphState.Operations.{
  upsert_node, remove_edge, remove_node, tick_edge, apply_tick, or_empty,
}
use flowscape.GraphState.Pending.Flags.{IsSound, insert-IsSound, delete-IsSound}
use flowscape.GraphState.Pending.Edges.{
  Flags, EdgeFlags, upsert_edge-flags, remove_edge-flags, upsert_node-EdgeFlags,
  remove_node-EdgeFlags, tick_edge-flags,
}
use flowscape.GraphState.Pending.Nodes.{
  NodeFlags, upsert_node-flags, remove_node-flags, remove_edge-NodeFlags, tick_edge-NodeFlags,
}

-- The books of all ids, against the edges and the nodes that the renderer held.
pub record Books (P : Flags) (edges nodes : String → Bool) (g : GraphState) : Type 0 where
  pub of_edge : (x : String) → EdgeFlags P (edges x) g x
  pub of_node : (x : String) → NodeFlags P (nodes x) g x

module _ {be bn : String → Bool} where
  pub upsert_node-Books :
      (g : GraphState) (n : WireNode)
      → Books IsSound be bn g
      → Books IsSound be bn (upsert_node g n)
  upsert_node-Books g n k = record {
    of_edge = λ x. upsert_node-EdgeFlags IsSound (be x) x g n (k.of_edge x);
    of_node = λ x.
        upsert_node-flags IsSound (bn x) x g n (k.of_node x)
          (λ _. insert-IsSound (n.id === x) (k.of_node x));
  }

  pub tick_edge-Books :
      (sec : ℤ) (g : GraphState) (e : WireEdge)
      → Books IsSound be bn g
      → Books IsSound be bn (tick_edge sec g e)
  tick_edge-Books sec g e k = record {
    of_edge = λ x. tick_edge-flags IsSound (be x) x g sec e (
        upsert_edge-flags IsSound (be x) x g e (k.of_edge x)
          (λ _. insert-IsSound (e.id === x) (k.of_edge x)));
    of_node = λ x. tick_edge-NodeFlags IsSound (bn x) x g sec e (k.of_node x);
  }

  pub remove_edge-Books :
      (g : GraphState) (id : String)
      → Books IsSound be bn g
      → Books IsSound be bn (remove_edge g id)
  remove_edge-Books g id k = record {
    of_edge = λ x. remove_edge-flags IsSound (be x) x g id (k.of_edge x) (λ _.
        delete-IsSound (id === x) (StringSet.has id g.added_edges)
          (λ e. ap (λ i. StringSet.has i g.added_edges) ((===_iff id x).0 e)) (k.of_edge x));
    of_node = λ x. remove_edge-NodeFlags IsSound (bn x) x g id (k.of_node x);
  }

  pub remove_node-Books :
      (g : GraphState) (id : String)
      → Books IsSound be bn g
      → Books IsSound be bn (remove_node g id)
  remove_node-Books g id k = record {
    of_edge = λ x. remove_node-EdgeFlags IsSound (be x) x g id (k.of_edge x);
    of_node = λ x. remove_node-flags IsSound (bn x) x g id (k.of_node x) (λ _.
        delete-IsSound (id === x) (StringSet.has id g.added_nodes)
          (λ e. ap (λ i. StringSet.has i g.added_nodes) ((===_iff id x).0 e)) (k.of_node x));
  }

  -- A tick keeps the books sound.
  pub apply_tick-Books :
      (g : GraphState) (t : Tick) → Books IsSound be bn g → Books IsSound be bn (apply_tick g t)
  unfolding apply_tick
  apply_tick-Books g t k = record { of_edge = λ x. done.of_edge x; of_node = λ x. done.of_node x }
    where
      done : Books IsSound be bn (
          foldl remove_node
            (foldl remove_edge
              (foldl
                (tick_edge (pos (t.ts / 1000)))
                (foldl upsert_node g (or_empty t.nodes))
                (or_empty t.edges))
              (or_empty t.gone.edges))
            (or_empty t.gone.nodes))
      done =
          foldl_keeps (Books IsSound be bn) remove_node remove_node-Books (or_empty t.gone.nodes) _
            (foldl_keeps (Books IsSound be bn) remove_edge remove_edge-Books (or_empty t.gone.edges)
              _
              (foldl_keeps (Books IsSound be bn) (tick_edge (pos (t.ts / 1000)))
                (tick_edge-Books (pos (t.ts / 1000))) (or_empty t.edges) _
                (foldl_keeps (Books IsSound be bn) upsert_node upsert_node-Books (or_empty t.nodes)
                  g k)))

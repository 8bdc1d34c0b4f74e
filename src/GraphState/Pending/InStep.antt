-- ===== src/GraphState/Pending/InStep.antt =====
-- A renderer that never runs out of slots holds exactly what the graph has, through ticks that bring
-- nothing back.
use flowscape.Base.{
  ◌/◌, String, Bool, true, false, ◌≡◌, refl, List, [], ◌∷◌, map, foldl, foldl_keeps, arith,
}
use flowscape.Base.Dict
use flowscape.Base.StringSet
use flowscape.Base.Int.{ℤ, pos}
use flowscape.Protocol.{WireNode, Tick, tick}
use flowscape.GraphState.Types.{GraphState}
use flowscape.GraphState.Operations.{
  upsert_node, remove_edge, remove_node, tick_edge, apply_tick, or_empty, receive, consume,
}
use flowscape.GraphState.Pending.Flags.{IsExact, exact-refresh}
use flowscape.GraphState.Pending.Edges.{upsert_node-EdgeFlags}
use flowscape.GraphState.Pending.Ticks.{Books}
use flowscape.GraphState.Pending.Resync.{node_ids, edge_ids}
use flowscape.GraphState.Pending.Exact.{
  Stays, upsert_nodes-Exact, tick_edges-Exact, remove_edge-Exact, remove_node-Exact,
}
use flowscape.GraphState.Pending.Rendering.{Screen, frame, follow, membership_dirty, added-dirty}

has_edge-upsert_nodes :
    (ns : List WireNode) (g : GraphState) (x : String)
    → Dict.has x g.edges ≡ true
    → Dict.has x (foldl upsert_node g ns).edges ≡ true
has_edge-upsert_nodes ns g x =
    foldl_keeps (λ h. Dict.has x h.edges ≡ true) upsert_node
      (λ h n old. upsert_node-EdgeFlags (λ b l a r. l ≡ true) true x h n old) ns g

module _ (be bn : String → Bool) where
  -- No id that the renderer held comes back in the tick: what the tick brings of those is still live.
  abbrev pub NoReturn : GraphState → Tick → Type 0
  NoReturn g t =
      Stays bn (node_ids (or_empty t.nodes)) (λ x. Dict.has x g.nodes)
      × Stays be (edge_ids (or_empty t.edges)) (λ x. Dict.has x g.edges)

  abbrev pub NoReturns : GraphState → List Tick → Type 0
  NoReturns g [] = Unit {0}
  NoReturns g (t ∷ ts) = NoReturn g t × NoReturns (apply_tick g t) ts

  apply_tick-Exact :
      (g : GraphState) (t : Tick)
      → NoReturn g t
      → Books IsExact be bn g
      → Books IsExact be bn (apply_tick g t)
  unfolding apply_tick
  apply_tick-Exact g t stay k = record {
    of_edge = λ x. done.of_edge x;
    of_node = λ x. done.of_node x;
  }
    where
      sec : ℤ
      sec = pos (t.ts / 1000)

      with_edges :
          Books IsExact be bn
            (foldl (tick_edge sec) (foldl upsert_node g (or_empty t.nodes)) (or_empty t.edges))
      with_edges =
          tick_edges-Exact sec (or_empty t.edges) (foldl upsert_node g (or_empty t.nodes))
            (λ x listed h. has_edge-upsert_nodes (or_empty t.nodes) g x (stay.1 x listed h))
            (upsert_nodes-Exact (or_empty t.nodes) g stay.0 k)

      done : Books IsExact be bn (
          foldl remove_node
            (foldl remove_edge
              (foldl (tick_edge sec) (foldl upsert_node g (or_empty t.nodes)) (or_empty t.edges))
              (or_empty t.gone.edges))
            (or_empty t.gone.nodes))
      done =
          foldl_keeps (Books IsExact be bn) remove_node remove_node-Exact (or_empty t.gone.nodes) _
            (foldl_keeps (Books IsExact be bn) remove_edge remove_edge-Exact (or_empty t.gone.edges)
              _ with_edges)

  ticks-Exact :
      (ts : List Tick) (g : GraphState)
      → NoReturns g ts
      → Books IsExact be bn g
      → Books IsExact be bn (foldl receive g (map tick ts))
  unfolding receive
  ticks-Exact [] g stay k = k
  ticks-Exact (t ∷ ts) g stay k =
      ticks-Exact ts (apply_tick g t) stay.1 (apply_tick-Exact g t stay.0 k)

-- The renderer holds what the graph has, and nothing is pending.
pub record IsInStep (s : Screen) : Type 0 where
  pub edges_same : (x : String) → s.edges x ≡ Dict.has x s.graph.edges
  pub nodes_same : (x : String) → s.nodes x ≡ Dict.has x s.graph.nodes
  pub no_edges : (s.graph.added_edges ≡ []) × (s.graph.removed_edges ≡ [])
  pub no_nodes : (s.graph.added_nodes ≡ []) × (s.graph.removed_nodes ≡ [])

IsExact-settled : (b l : Bool) → b ≡ l → IsExact b l false false
IsExact-settled true true e = ground arith
IsExact-settled true false e = absurd (cc)
IsExact-settled false true e = absurd (cc)
IsExact-settled false false e = ground arith

IsInStep-Exact : (s : Screen) → IsInStep s → Books IsExact s.edges s.nodes s.graph
unfolding StringSet.has
IsInStep-Exact s k = record {
  of_edge = λ x. rw (k.no_edges.0, k.no_edges.1) (IsExact-settled _ _ (k.edges_same x));
  of_node = λ x. rw (k.no_nodes.0, k.no_nodes.1) (IsExact-settled _ _ (k.nodes_same x));
}

-- After a frame of ticks that bring nothing back, that renderer again holds exactly the edges and the
-- nodes of the graph.
pub frame-IsInStep :
    (s : Screen) (ts : List Tick)
    → IsInStep s
    → NoReturns s.edges s.nodes s.graph ts
    → IsInStep (frame s (map tick ts))
unfolding frame consume follow
frame-IsInStep s ts k stay = record {
  edges_same = λ x. exact-refresh (s.edges x) _ _ (k'.of_edge x) (λ h. h);
  nodes_same = λ x. exact-refresh (s.nodes x) _ _ (k'.of_node x) (looks x);
  no_edges = (refl, refl);
  no_nodes = (refl, refl);
}
  where
    k' : Books IsExact s.edges s.nodes (foldl receive s.graph (map tick ts))
    k' = ticks-Exact s.edges s.nodes ts s.graph stay (IsInStep-Exact s k)

    looks :
        (x : String)
        → StringSet.has x (foldl receive s.graph (map tick ts)).added_nodes ≡ true
        → membership_dirty s.by_machine (consume (foldl receive s.graph (map tick ts))).0 ≡ true
    looks x h = added-dirty s.by_machine (consume (foldl receive s.graph (map tick ts))).0 x h

-- ===== src/GraphState/Pending/Resync.antt =====
-- What the graph holds after a snapshot, and what it notes as added.
use flowscape.Base.{
  sym, String, Bool, true, false, ◌||◌, ◌≡◌, refl, ◌∙◌, ap, List, [], ◌∷◌, map, foldl, inl, inr,
  ◌===◌, ===_iff, arith, Option-cases, foldl_keeps,
}
use flowscape.Base.Dict
use flowscape.Base.StringSet
use flowscape.Protocol.{WireNode, WireEdge, Snapshot}
use flowscape.GraphState.Types.{GraphState}
use flowscape.GraphState.Operations.{
  upsert_node, upsert_edge, snapshot_edge, clear_graph, apply_snapshot,
}
use flowscape.GraphState.Pending.Edges.{
  upsert_edge-flags, snapshot_edge-flags, upsert_node-EdgeFlags,
}
use flowscape.GraphState.Pending.Nodes.{upsert_node-flags, snapshot_edge-NodeFlags}
use flowscape.GraphState.Pending.Snapshots.{loaded, apply_snapshot-loaded}

abbrev pub node_ids : List WireNode → List String
node_ids = map (λ n. n.id)

abbrev pub edge_ids : List WireEdge → List String
edge_ids = map (λ e. e.id)

pub has-upsert_node :
    (x : String) (g : GraphState) (n : WireNode)
    → Dict.has x (upsert_node g n).nodes ≡ (n.id === x) || Dict.has x g.nodes
unfolding upsert_node
has-upsert_node x g n = elim (Option-cases (Dict.get n.id g.nodes)) [
  | inl e ↦ rw (e, upsert_node) (Dict.has-put n.id x _ g.nodes)
  | inr (ns, e) ↦ rw (e, upsert_node) (Dict.has-put n.id x _ g.nodes)
]

has-upsert_nodes :
    (x : String) (ns : List WireNode) (g : GraphState)
    → Dict.has x (foldl upsert_node g ns).nodes
      ≡ StringSet.has x (node_ids ns) || Dict.has x g.nodes
unfolding StringSet.has
has-upsert_nodes x [] g = refl
has-upsert_nodes x (n ∷ ns) g =
    ground (arith, has-upsert_nodes x ns (upsert_node g n), has-upsert_node x g n)

has-snapshot_edge :
    (x : String) (g : GraphState) (e : WireEdge)
    → Dict.has x (snapshot_edge g e).edges ≡ (e.id === x) || Dict.has x g.edges
unfolding snapshot_edge upsert_edge
has-snapshot_edge x g e = elim (Option-cases (Dict.get e.id g.edges)) [
  | inl absent ↦ rw (Dict.has-modify, absent, upsert_edge) (Dict.has-put e.id x _ g.edges)
  | inr (es, present) ↦
      rw (Dict.has-modify, present, upsert_edge)
        (ground (arith, Dict.has-get e.id g.edges, ===_iff e.id x))
]

has-snapshot_edges :
    (x : String) (es : List WireEdge) (g : GraphState)
    → Dict.has x (foldl snapshot_edge g es).edges
      ≡ StringSet.has x (edge_ids es) || Dict.has x g.edges
unfolding StringSet.has
has-snapshot_edges x [] g = refl
has-snapshot_edges x (e ∷ es) g =
    ground (arith, has-snapshot_edges x es (snapshot_edge g e), has-snapshot_edge x g e)

-- What is added is what is live, and there is no other: `v` is what the snapshot says of the id.
abbrev Same : Bool → Bool → Bool → Bool → Type 0
Same b l a r = l ≡ a

module _ (g : GraphState) (s : Snapshot) (x : String) where
  cleared-nodes : Dict.has x (clear_graph g).nodes ≡ false
  unfolding clear_graph Dict.has
  cleared-nodes = refl

  cleared-edges : Dict.has x (clear_graph g).edges ≡ false
  unfolding clear_graph Dict.has
  cleared-edges = refl

  cleared-added :
      (Dict.has x (clear_graph g).nodes ≡ StringSet.has x (clear_graph g).added_nodes)
      × (Dict.has x (clear_graph g).edges ≡ StringSet.has x (clear_graph g).added_edges)
  unfolding clear_graph Dict.has StringSet.has
  cleared-added = (refl, refl)

  loaded-nodes : Dict.has x (loaded g s).nodes ≡ StringSet.has x (node_ids s.nodes)
  loaded-nodes =
      foldl_keeps (λ h. Dict.has x h.nodes ≡ StringSet.has x (node_ids s.nodes)) snapshot_edge
        (λ h e old.
          snapshot_edge-NodeFlags (λ b l a r. l ≡ StringSet.has x (node_ids s.nodes)) true x h e
            old)
        s.edges _ (ground (arith, has-upsert_nodes x s.nodes (clear_graph g), cleared-nodes))

  loaded-edges : Dict.has x (loaded g s).edges ≡ StringSet.has x (edge_ids s.edges)
  loaded-edges = ground (
    arith,
    has-snapshot_edges x s.edges (foldl upsert_node (clear_graph g) s.nodes),
    foldl_keeps (λ h. Dict.has x h.edges ≡ false) upsert_node
        (λ h n old. upsert_node-EdgeFlags (λ b l a r. l ≡ false) true x h n old) s.nodes
        (clear_graph g) cleared-edges,
  )

  loaded-added_nodes : Dict.has x (loaded g s).nodes ≡ StringSet.has x (loaded g s).added_nodes
  loaded-added_nodes =
      foldl_keeps (λ h. Dict.has x h.nodes ≡ StringSet.has x h.added_nodes) snapshot_edge
        (λ h e old. snapshot_edge-NodeFlags Same true x h e old) s.edges _
        (foldl_keeps (λ h. Dict.has x h.nodes ≡ StringSet.has x h.added_nodes) upsert_node
          (λ h n old. upsert_node-flags Same true x h n old (λ _. ap (◌||◌ (n.id === x)) old))
          s.nodes (clear_graph g) cleared-added.0)

  loaded-added_edges : Dict.has x (loaded g s).edges ≡ StringSet.has x (loaded g s).added_edges
  loaded-added_edges =
      foldl_keeps (λ h. Dict.has x h.edges ≡ StringSet.has x h.added_edges) snapshot_edge
        (λ h e old.
          snapshot_edge-flags Same true x h e
            (upsert_edge-flags Same true x h e old (λ _. ap (◌||◌ (e.id === x)) old)))
        s.edges _
        (foldl_keeps (λ h. Dict.has x h.edges ≡ StringSet.has x h.added_edges) upsert_node
          (λ h n old. upsert_node-EdgeFlags Same true x h n old) s.nodes (clear_graph g)
          cleared-added.1)

  -- After a snapshot the graph has exactly the nodes and the edges of the snapshot, and it notes
  -- every one of them as added, whether or not the graph had it before.
  pub apply_snapshot-ids :
      let h = apply_snapshot g s in
      (Dict.has x h.nodes ≡ StringSet.has x (node_ids s.nodes))
      × (Dict.has x h.edges ≡ StringSet.has x (edge_ids s.edges))
      × (StringSet.has x h.added_nodes ≡ StringSet.has x (node_ids s.nodes))
      × (StringSet.has x h.added_edges ≡ StringSet.has x (edge_ids s.edges))
  apply_snapshot-ids = rw (apply_snapshot-loaded g s) (
    loaded-nodes,
    loaded-edges,
    sym loaded-added_nodes ∙ loaded-nodes,
    sym loaded-added_edges ∙ loaded-edges,
  )

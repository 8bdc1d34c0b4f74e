-- ===== src/GraphState/Pending/Nodes.antt =====
-- The books of the nodes, through each operation on the graph.
use flowscape.Base.{
  ap, String, Bool, true, false, ◌||◌, ◌≡◌, ◌∙◌, inl, inr, ◌===◌, if◌then◌else◌, Option-cases,
  Bool-cases,
}
use flowscape.Base.Dict
use flowscape.Base.StringSet
use flowscape.Base.Int.{ℤ}
use flowscape.Protocol.{WireNode, WireEdge}
use flowscape.GraphState.Types.{GraphState}
use flowscape.GraphState.Operations.{
  upsert_node, upsert_edge, remove_edge, remove_node, snapshot_edge, tick_edge, attach, detach,
}
use flowscape.GraphState.Pending.Edges.{Flags, has-note_removed}

-- What the books say of one node id.
abbrev pub NodeFlags : Flags → Bool → GraphState → String → Type 0
NodeFlags P b g x =
    P b (Dict.has x g.nodes) (StringSet.has x g.added_nodes) (StringSet.has x g.removed_nodes)

module _ (P : Flags) (b : Bool) (x : String) where
  pub upsert_node-flags :
      (g : GraphState) (n : WireNode)
      → NodeFlags P b g x
      → (Dict.has n.id g.nodes ≡ false
          → P b
              ((n.id === x) || Dict.has x g.nodes)
              ((n.id === x) || StringSet.has x g.added_nodes)
              (if n.id === x then false else StringSet.has x g.removed_nodes))
      → NodeFlags P b (upsert_node g n) x
  unfolding upsert_node
  upsert_node-flags g n old new = elim (Option-cases (Dict.get n.id g.nodes)) [
    | inl absent ↦
        rw (absent, upsert_node)
          (rw (Dict.has-put, StringSet.has-add, StringSet.has-delete)
            (new (Dict.has-get n.id g.nodes ∙ ap Dict.is_some absent)))
    | inr (ns, present) ↦
        rw (present, upsert_node) (rw (Dict.has-put_present n.id x ns _ g.nodes present) old)
  ]

  pub remove_node-flags :
      (g : GraphState) (id : String)
      → NodeFlags P b g x
      → (Dict.has id g.nodes ≡ true
          → P b
              (if id === x then false else Dict.has x g.nodes)
              (if id === x then false else StringSet.has x g.added_nodes)
              (if StringSet.has id g.added_nodes
                then StringSet.has x g.removed_nodes
                else (id === x) || StringSet.has x g.removed_nodes))
      → NodeFlags P b (remove_node g id) x
  unfolding remove_node
  remove_node-flags g id old gone = elim (Bool-cases (Dict.has id g.nodes)) [
    | inl present ↦
        rw present (rw (Dict.has-delete, StringSet.has-delete, has-note_removed) (gone present))
    | inr absent ↦ rw absent old
  ]

  pub upsert_edge-NodeFlags :
      (g : GraphState) (e : WireEdge) → NodeFlags P b g x → NodeFlags P b (upsert_edge g e) x
  unfolding upsert_edge
  upsert_edge-NodeFlags g e old = elim (Option-cases (Dict.get e.id g.edges)) [
    | inl absent ↦
        rw (absent, upsert_edge)
          (rw (Dict.has-modify e.dst x (attach e.id), Dict.has-modify e.src x (attach e.id)) old)
    | inr (es, present) ↦ rw (present, upsert_edge) old
  ]

  pub remove_edge-NodeFlags :
      (g : GraphState) (id : String) → NodeFlags P b g x → NodeFlags P b (remove_edge g id) x
  unfolding remove_edge
  remove_edge-NodeFlags g id old = elim (Option-cases (Dict.get id g.edges)) [
    | inl absent ↦ rw (absent, remove_edge) old
    | inr (e, present) ↦
        rw (present, remove_edge)
          (rw (Dict.has-modify e.dst x (detach id), Dict.has-modify e.src x (detach id)) old)
  ]

  pub tick_edge-NodeFlags :
      (g : GraphState) (sec : ℤ) (e : WireEdge)
      → NodeFlags P b g x
      → NodeFlags P b (tick_edge sec g e) x
  unfolding tick_edge
  tick_edge-NodeFlags g sec e h = upsert_edge-NodeFlags g e h

  pub snapshot_edge-NodeFlags :
      (g : GraphState) (e : WireEdge) → NodeFlags P b g x → NodeFlags P b (snapshot_edge g e) x
  unfolding snapshot_edge
  snapshot_edge-NodeFlags g e h = upsert_edge-NodeFlags g e h

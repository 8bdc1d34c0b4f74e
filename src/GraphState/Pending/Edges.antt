-- ===== src/GraphState/Pending/Edges.antt =====
-- The books of the edges, through each operation on the graph.
use flowscape.Base.{
  ap, String, Bool, true, false, ◌||◌, ◌≡◌, ◌∙◌, inl, inr, ◌===◌, if◌then◌else◌, Option-cases,
  Bool-cases,
}
use flowscape.Base.Dict
use flowscape.Base.StringSet
use flowscape.Base.StringSet.{StringSet}
use flowscape.Base.Int.{ℤ}
use flowscape.Protocol.{WireNode, WireEdge}
use flowscape.GraphState.Types.{GraphState}
use flowscape.GraphState.Operations.{
  upsert_node, upsert_edge, remove_edge, remove_node, snapshot_edge, tick_edge, note_removed,
}

abbrev pub Flags : Type 1
Flags = Bool → Bool → Bool → Bool → Type 0

-- What the books say of one edge id.
abbrev pub EdgeFlags : Flags → Bool → GraphState → String → Type 0
EdgeFlags P b g x =
    P b (Dict.has x g.edges) (StringSet.has x g.added_edges) (StringSet.has x g.removed_edges)

pub has-note_removed :
    (id x : String) (added removed : StringSet)
    → StringSet.has x (note_removed id added removed) ≡ (
        if StringSet.has id added
        then StringSet.has x removed
        else (id === x) || StringSet.has x removed)
has-note_removed id x added removed = elim (Bool-cases (StringSet.has id added)) [
  | inl e ↦ rw e
  | inr e ↦ rw e (StringSet.has-add id x removed)
]

module _ (P : Flags) (b : Bool) (x : String) where
  pub upsert_edge-flags :
      (g : GraphState) (e : WireEdge)
      → EdgeFlags P b g x
      → (Dict.has e.id g.edges ≡ false
          → P b
              ((e.id === x) || Dict.has x g.edges)
              ((e.id === x) || StringSet.has x g.added_edges)
              (if e.id === x then false else StringSet.has x g.removed_edges))
      → EdgeFlags P b (upsert_edge g e) x
  unfolding upsert_edge
  upsert_edge-flags g e old new = elim (Option-cases (Dict.get e.id g.edges)) [
    | inl absent ↦
        rw (absent, upsert_edge)
          (rw (Dict.has-put, StringSet.has-add, StringSet.has-delete)
            (new (Dict.has-get e.id g.edges ∙ ap Dict.is_some absent)))
    | inr (es, present) ↦ rw (present, upsert_edge) old
  ]

  pub remove_edge-flags :
      (g : GraphState) (id : String)
      → EdgeFlags P b g x
      → (Dict.has id g.edges ≡ true
          → P b
              (if id === x then false else Dict.has x g.edges)
              (if id === x then false else StringSet.has x g.added_edges)
              (if StringSet.has id g.added_edges
                then StringSet.has x g.removed_edges
                else (id === x) || StringSet.has x g.removed_edges))
      → EdgeFlags P b (remove_edge g id) x
  unfolding remove_edge
  remove_edge-flags g id old gone = elim (Option-cases (Dict.get id g.edges)) [
    | inl absent ↦ rw (absent, remove_edge) old
    | inr (e, present) ↦
        rw (present, remove_edge)
          (rw (Dict.has-delete, StringSet.has-delete, has-note_removed)
            (gone (Dict.has-get id g.edges ∙ ap Dict.is_some present)))
  ]

  pub upsert_node-EdgeFlags :
      (g : GraphState) (n : WireNode) → EdgeFlags P b g x → EdgeFlags P b (upsert_node g n) x
  unfolding upsert_node
  upsert_node-EdgeFlags g n old = elim (Option-cases (Dict.get n.id g.nodes)) [
    | inl absent ↦ rw (absent, upsert_node) old
    | inr (ns, present) ↦ rw (present, upsert_node) old
  ]

  pub remove_node-EdgeFlags :
      (g : GraphState) (id : String) → EdgeFlags P b g x → EdgeFlags P b (remove_node g id) x
  unfolding remove_node
  remove_node-EdgeFlags g id old = elim (Bool-cases (Dict.has id g.nodes)) [
    | inl e ↦ rw e old
    | inr e ↦ rw e old
  ]

  pub tick_edge-flags :
      (g : GraphState) (sec : ℤ) (e : WireEdge)
      → EdgeFlags P b (upsert_edge g e) x
      → EdgeFlags P b (tick_edge sec g e) x
  unfolding tick_edge
  tick_edge-flags g sec e h = rw Dict.has-modify h

  pub snapshot_edge-flags :
      (g : GraphState) (e : WireEdge)
      → EdgeFlags P b (upsert_edge g e) x
      → EdgeFlags P b (snapshot_edge g e) x
  unfolding snapshot_edge
  snapshot_edge-flags g e h = rw Dict.has-modify h

-- ===== src/GraphState/Pending/Exact.antt =====
-- When no id comes back between two frames, the renderer holds exactly what the graph has.
use flowscape.Base.{
  String, Bool, true, false, ◌≡◌, List, [], ◌∷◌, foldl, ap, ===_iff, ◌===◌, arith, subst,
  Bool-cases, inl, inr, ===_refl,
}
use flowscape.Base.Dict
use flowscape.Base.StringSet
use flowscape.Base.Int.{ℤ}
use flowscape.Protocol.{WireNode, WireEdge}
use flowscape.GraphState.Types.{GraphState}
use flowscape.GraphState.Operations.{upsert_node, remove_edge, remove_node, tick_edge}
use flowscape.GraphState.Pending.Flags.{IsExact, insert-IsExact, delete-IsExact}
use flowscape.GraphState.Pending.Edges.{
  upsert_edge-flags, remove_edge-flags, upsert_node-EdgeFlags, remove_node-EdgeFlags,
  tick_edge-flags,
}
use flowscape.GraphState.Pending.Nodes.{
  upsert_node-flags, remove_node-flags, remove_edge-NodeFlags, tick_edge-NodeFlags,
}
use flowscape.GraphState.Pending.Ticks.{Books}
use flowscape.GraphState.Pending.Resync.{node_ids, edge_ids, has-upsert_node}

-- Each id that the renderer held and that the list brings is still live.
abbrev pub Stays : (String → Bool) → List String → (String → Bool) → Type 0
Stays held ids live = (x : String) → StringSet.has x ids ≡ true → held x ≡ true → live x ≡ true

Stays-head :
    (held live : String → Bool) (id : String) (ids : List String)
    → Stays held (id ∷ ids) live
    → live id ≡ false
    → held id ≡ false
unfolding StringSet.has
Stays-head held live id ids stay gone = elim (Bool-cases (held id)) [
  | inl h ↦ let l = stay id (ground (arith, ===_refl id)) h in absurd (cc)
  | inr h ↦ h
]

Stays-tail :
    (held live live' : String → Bool) (id : String) (ids : List String)
    → Stays held (id ∷ ids) live
    → ((x : String) → live x ≡ true → live' x ≡ true)
    → Stays held ids live'
unfolding StringSet.has
Stays-tail held live live' id ids stay grows x listed h = grows x (stay x (ground arith) h)

has-tick_edge :
    (sec : ℤ) (g : GraphState) (e : WireEdge) (x : String)
    → Dict.has x g.edges ≡ true
    → Dict.has x (tick_edge sec g e).edges ≡ true
has-tick_edge sec g e x live =
    tick_edge-flags (λ b l a r. l ≡ true) true x g sec e
      (upsert_edge-flags (λ b l a r. l ≡ true) true x g e live (λ _. ground arith))

module _ {be bn : String → Bool} where
  pub upsert_nodes-Exact :
      (ns : List WireNode) (g : GraphState)
      → Stays bn (node_ids ns) (λ x. Dict.has x g.nodes)
      → Books IsExact be bn g
      → Books IsExact be bn (foldl upsert_node g ns)
  upsert_nodes-Exact [] g stay k = k
  upsert_nodes-Exact (n ∷ ns) g stay k =
      upsert_nodes-Exact ns (upsert_node g n)
        (Stays-tail bn (λ x. Dict.has x g.nodes) (λ x. Dict.has x (upsert_node g n).nodes) n.id
          (node_ids ns) stay (λ x live. ground (arith, has-upsert_node x g n)))
        (record {
          of_edge = λ x. upsert_node-EdgeFlags IsExact (be x) x g n (k.of_edge x);
          of_node = λ x. upsert_node-flags IsExact (bn x) x g n (k.of_node x) (λ absent.
              insert-IsExact (n.id === x)
                (λ same.
                  subst (λ y. bn y ≡ false) ((===_iff n.id x).0 same)
                    (Stays-head bn (λ x. Dict.has x g.nodes) n.id (node_ids ns) stay absent))
                (k.of_node x));
        })

  pub tick_edges-Exact :
      (sec : ℤ) (es : List WireEdge) (g : GraphState)
      → Stays be (edge_ids es) (λ x. Dict.has x g.edges)
      → Books IsExact be bn g
      → Books IsExact be bn (foldl (tick_edge sec) g es)
  tick_edges-Exact sec [] g stay k = k
  tick_edges-Exact sec (e ∷ es) g stay k =
      tick_edges-Exact sec es (tick_edge sec g e)
        (Stays-tail be (λ x. Dict.has x g.edges) (λ x. Dict.has x (tick_edge sec g e).edges) e.id
          (edge_ids es) stay (has-tick_edge sec g e))
        (record {
          of_edge = λ x. tick_edge-flags IsExact (be x) x g sec e (
              upsert_edge-flags IsExact (be x) x g e (k.of_edge x) (λ absent.
                insert-IsExact (e.id === x)
                  (λ same.
                    subst (λ y. be y ≡ false) ((===_iff e.id x).0 same)
                      (Stays-head be (λ x. Dict.has x g.edges) e.id (edge_ids es) stay absent))
                  (k.of_edge x)));
          of_node = λ x. tick_edge-NodeFlags IsExact (bn x) x g sec e (k.of_node x);
        })

  pub remove_edge-Exact :
      (g : GraphState) (id : String)
      → Books IsExact be bn g
      → Books IsExact be bn (remove_edge g id)
  remove_edge-Exact g id k = record {
    of_edge = λ x. remove_edge-flags IsExact (be x) x g id (k.of_edge x) (λ _.
        delete-IsExact (id === x) (StringSet.has id g.added_edges)
          (λ e. ap (λ i. StringSet.has i g.added_edges) ((===_iff id x).0 e)) (k.of_edge x));
    of_node = λ x. remove_edge-NodeFlags IsExact (bn x) x g id (k.of_node x);
  }

  pub remove_node-Exact :
      (g : GraphState) (id : String)
      → Books IsExact be bn g
      → Books IsExact be bn (remove_node g id)
  remove_node-Exact g id k = record {
    of_edge = λ x. remove_node-EdgeFlags IsExact (be x) x g id (k.of_edge x);
    of_node = λ x. remove_node-flags IsExact (bn x) x g id (k.of_node x) (λ _.
        delete-IsExact (id === x) (StringSet.has id g.added_nodes)
          (λ e. ap (λ i. StringSet.has i g.added_nodes) ((===_iff id x).0 e)) (k.of_node x));
  }

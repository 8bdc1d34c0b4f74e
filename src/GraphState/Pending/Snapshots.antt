-- ===== src/GraphState/Pending/Snapshots.antt =====
-- The books through a snapshot.
use flowscape.Base.{
  String, Bool, true, false, ◌≡◌, refl, [], ◌∷◌, foldl, foldl_keeps, ◌===◌, ===_refl, arith,
  Bool-cases, inl, inr,
}
use flowscape.Base.Dict
use flowscape.Base.StringSet
use flowscape.Base.StringSet.{StringSet}
use flowscape.Protocol.{WireEdge, Snapshot}
use flowscape.GraphState.Types.{GraphState}
use flowscape.GraphState.Operations.{
  upsert_node, snapshot_edge, clear_graph, cancel, apply_snapshot,
}
use flowscape.GraphState.Pending.Flags.{IsSound, insert-IsSound}
use flowscape.GraphState.Pending.Edges.{upsert_edge-flags, snapshot_edge-flags}
use flowscape.GraphState.Pending.Nodes.{snapshot_edge-NodeFlags}
use flowscape.GraphState.Pending.Ticks.{Books, upsert_node-Books}

-- The loop that cancels an id in both sets does nothing to sets that share none.
cancel_idle :
    (ids added removed : StringSet)
    → ((x : String) → StringSet.has x ids ≡ true → StringSet.has x removed ≡ false)
    → cancel ids (added, removed) ≡ (added, removed)
unfolding cancel StringSet.has
cancel_idle [] added removed apart = refl
cancel_idle (x ∷ ids) added removed apart =
    let here = apart x (ground (arith, ===_refl x)) in
    rw here (cancel_idle ids added removed (λ y h. apart y (ground arith)))

-- The state when the loops over the snapshot are done.
abbrev pub loaded : GraphState → Snapshot → GraphState
loaded g s = foldl snapshot_edge (foldl upsert_node (clear_graph g) s.nodes) s.edges

module _ {be bn : String → Bool} where
  snapshot_edge-Books :
      (g : GraphState) (e : WireEdge)
      → Books IsSound be bn g
      → Books IsSound be bn (snapshot_edge g e)
  snapshot_edge-Books g e k = record {
    of_edge = λ x. snapshot_edge-flags IsSound (be x) x g e (
        upsert_edge-flags IsSound (be x) x g e (k.of_edge x)
          (λ _. insert-IsSound (e.id === x) (k.of_edge x)));
    of_node = λ x. snapshot_edge-NodeFlags IsSound (bn x) x g e (k.of_node x);
  }

  clear_graph-Books : (g : GraphState) → Books IsSound be bn (clear_graph g)
  unfolding clear_graph StringSet.has Dict.has
  clear_graph-Books g = record { of_edge = λ x. ground arith; of_node = λ x. ground arith }

  loaded-Books : (g : GraphState) (s : Snapshot) → Books IsSound be bn (loaded g s)
  loaded-Books g s = foldl_keeps (Books IsSound be bn) snapshot_edge snapshot_edge-Books s.edges _ (
      foldl_keeps (Books IsSound be bn) upsert_node upsert_node-Books s.nodes _
        (clear_graph-Books g))

module _ (g : GraphState) (s : Snapshot) where
  -- What the loops leave as added and as removed has no id in common.
  apart_nodes :
      (x : String)
      → StringSet.has x (loaded g s).added_nodes ≡ true
      → StringSet.has x (loaded g s).removed_nodes ≡ false
  apart_nodes x h =
      let k = (loaded-Books {be = λ _. false} {bn = λ _. false} g s).of_node x in
      elim (Bool-cases (StringSet.has x (loaded g s).removed_nodes)) [
        | inl r ↦ let l = k.added_live h in let l' = k.removed_gone r in cc
        | inr e ↦ e
      ]

  apart_edges :
      (x : String)
      → StringSet.has x (loaded g s).added_edges ≡ true
      → StringSet.has x (loaded g s).removed_edges ≡ false
  apart_edges x h =
      let k = (loaded-Books {be = λ _. false} {bn = λ _. false} g s).of_edge x in
      elim (Bool-cases (StringSet.has x (loaded g s).removed_edges)) [
        | inl r ↦ let l = k.added_live h in let l' = k.removed_gone r in cc
        | inr e ↦ e
      ]

  -- The loops of `applySnapshot` that cancel the ids noted both as added and as removed change
  -- nothing.
  pub apply_snapshot-loaded : apply_snapshot g s ≡ record (loaded g s) { ts = s.ts; reset = true }
  unfolding apply_snapshot
  apply_snapshot-loaded = rw (
    cancel_idle (loaded g s).added_nodes (loaded g s).added_nodes (loaded g s).removed_nodes
        apart_nodes,
    cancel_idle (loaded g s).added_edges (loaded g s).added_edges (loaded g s).removed_edges
        apart_edges,
  )

  -- A snapshot makes the books sound, whatever they were before.
  pub apply_snapshot-Books : (be bn : String → Bool) → Books IsSound be bn (apply_snapshot g s)
  apply_snapshot-Books be bn = rw apply_snapshot-loaded (record {
    of_edge = λ x. (loaded-Books {be = be} {bn = bn} g s).of_edge x;
    of_node = λ x. (loaded-Books {be = be} {bn = bn} g s).of_node x;
  })

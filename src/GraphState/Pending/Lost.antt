-- ===== src/GraphState/Pending/Lost.antt =====
-- Removals that the renderer is never told of.
use flowscape.Base.{
  String, Bool, true, false, ◌≡◌, refl, ap, ◌∙◌, [], ◌∷◌, none, some, ===_refl, if◌then◌else◌,
  Option-cases, inl, inr, Bool-cases, ℕ, arith,
}
use flowscape.Base.Dict
use flowscape.Base.StringSet
use flowscape.Protocol.{WireEdge, Snapshot, Tick, Status, snapshot, tick}
use flowscape.GraphState.Types.{GraphState}
use flowscape.GraphState.Operations.{
  upsert_edge, remove_edge, tick_edge, apply_snapshot, apply_tick, receive, consume,
}
use flowscape.GraphState.Pending.Flags.{IsSound}
use flowscape.GraphState.Pending.Edges.{has-note_removed}
use flowscape.GraphState.Pending.Snapshots.{apply_snapshot-Books}
use flowscape.GraphState.Pending.Resync.{edge_ids, apply_snapshot-ids}
use flowscape.GraphState.Pending.Rendering.{Screen, frame, follow}

remove_edge_self :
    (g : GraphState) (id : String)
    → Dict.has id g.edges ≡ true
    → let h = remove_edge g id in
      (Dict.has id h.edges ≡ false)
      × (StringSet.has id h.added_edges ≡ false)
      × (StringSet.has id h.removed_edges
          ≡ (if StringSet.has id g.added_edges then StringSet.has id g.removed_edges else true))
unfolding remove_edge
remove_edge_self g id there = elim (Option-cases (Dict.get id g.edges)) [
  | inl absent ↦ let gone = Dict.has-get id g.edges ∙ ap Dict.is_some absent in absurd (cc)
  | inr (e, present) ↦
      rw (present, remove_edge)
        (rw (Dict.has-delete, StringSet.has-delete, has-note_removed, ===_refl id)
          (refl, refl, refl))
]

upsert_edge_self :
    (g : GraphState) (e : WireEdge)
    → Dict.has e.id g.edges ≡ false
    → let h = upsert_edge g e in
      (Dict.has e.id h.edges ≡ true)
      × (StringSet.has e.id h.added_edges ≡ true)
      × (StringSet.has e.id h.removed_edges ≡ false)
unfolding upsert_edge
upsert_edge_self g e gone = elim (Option-cases (Dict.get e.id g.edges)) [
  | inl absent ↦
      rw (absent, upsert_edge)
        (rw (Dict.has-put, StringSet.has-add, StringSet.has-delete, ===_refl e.id)
          (refl, refl, refl))
  | inr (es, present) ↦
      let there = Dict.has-get e.id g.edges ∙ ap Dict.is_some present in absurd (cc)
]

-- The books of an edge that goes while it is noted as added: it is noted nowhere.
remove_edge-listed :
    (g : GraphState) (id : String)
    → Dict.has id g.edges ≡ true
    → StringSet.has id g.added_edges ≡ true
    → StringSet.has id g.removed_edges ≡ false
    → let h = remove_edge g id in
      (Dict.has id h.edges ≡ false)
      × (StringSet.has id h.added_edges ≡ false)
      × (StringSet.has id h.removed_edges ≡ false)
remove_edge-listed g id there listed unlisted =
    let (gone, a, r) = remove_edge_self g id there in (gone, a, ground arith)

unremoved : {b l a r : Bool} → IsSound b l a r → l ≡ true → r ≡ false
unremoved {r} k live = elim (Bool-cases r) [
  | inl e ↦ let gone = k.removed_gone e in absurd (cc)
  | inr e ↦ e
]

-- A tick that takes one edge away, and one that brings one edge.
abbrev pub gone_tick : ℕ → Status → String → Tick
gone_tick ts status id = record {
  ts = ts;
  nodes = none;
  edges = none;
  gone = record { nodes = none; edges = some (id ∷ []) };
  sparks = none;
  status = status;
}

abbrev pub seen_tick : ℕ → Status → WireEdge → Tick
seen_tick ts status e = record {
  ts = ts;
  nodes = none;
  edges = some (e ∷ []);
  gone = record { nodes = none; edges = none };
  sparks = none;
  status = status;
}

-- The graph after the three ticks below.
module _ (g : GraphState) (status : Status) (t u v : ℕ) (e : WireEdge) where
  abbrev returned : GraphState
  returned = apply_tick (apply_tick g (gone_tick t status e.id)) (seen_tick u status e)

  returned-listed :
      Dict.has e.id g.edges ≡ true
      → (Dict.has e.id returned.edges ≡ true)
        × (StringSet.has e.id returned.added_edges ≡ true)
        × (StringSet.has e.id returned.removed_edges ≡ false)
  unfolding apply_tick tick_edge
  returned-listed there =
      let away = apply_tick g (gone_tick t status e.id) in
      let (l, a, r) = upsert_edge_self away e (remove_edge_self g e.id there).0 in
      (rw Dict.has-modify l, a, r)

  returned-gone :
      Dict.has e.id g.edges ≡ true
      → let h = apply_tick returned (gone_tick v status e.id) in
        (Dict.has e.id h.edges ≡ false)
        × (StringSet.has e.id h.added_edges ≡ false)
        × (StringSet.has e.id h.removed_edges ≡ false)
  unfolding apply_tick
  returned-gone there =
      let (l, a, r) = returned-listed there in remove_edge-listed returned e.id l a r

module _ (s : Screen) (status : Status) where
  -- An edge that the renderer holds and that goes, comes back and goes again between two frames stays
  -- on the screen: the graph no longer has it, and the renderer was not told to drop it.
  pub edge_lost_by_return :
      (t u v : ℕ) (e : WireEdge)
      → Dict.has e.id s.graph.edges ≡ true
      → s.edges e.id ≡ true
      → let s' = frame s (
          tick (gone_tick t status e.id)
          ∷ tick (seen_tick u status e)
          ∷ tick (gone_tick v status e.id)
          ∷ []) in
        (Dict.has e.id s'.graph.edges ≡ false) × (s'.edges e.id ≡ true)
  unfolding frame receive consume follow
  edge_lost_by_return t u v e there held =
      let (l, a, r) = returned-gone s.graph status t u v e there in (l, rw (a, r, held))

  -- An edge that the renderer holds, that a snapshot brings again and that goes before the next frame
  -- stays on the screen: the graph no longer has it.
  pub edge_lost_after_snapshot :
      (t : ℕ) (r : Snapshot) (id : String)
      → StringSet.has id (edge_ids r.edges) ≡ true
      → s.edges id ≡ true
      → let s' = frame s (snapshot r ∷ tick (gone_tick t status id) ∷ []) in
        (Dict.has id s'.graph.edges ≡ false) × (s'.edges id ≡ true)
  unfolding frame receive apply_tick consume follow
  edge_lost_after_snapshot t r id listed held =
      let g = apply_snapshot s.graph r in
      let ids = apply_snapshot-ids s.graph r id in
      let books = (apply_snapshot-Books s.graph r (λ _. false) (λ _. false)).of_edge id in
      let (l, a, q) =
        remove_edge-listed g id (ids.1 ∙ listed) (ids.3 ∙ listed)
          (unremoved books (ids.1 ∙ listed)) in
      (l, rw (a, q, held))

-- ===== src/Frames/Refined.antt =====
-- Which arcs and nodes are on the screen after `applyChanges` of web/src/main.ts.
use flowscape.Base.{
  ℕ, ◌≤◌, String, Bool, true, false, not, ◌&&◌, ◌||◌, ◌≡◌, refl, ◌∙◌, sym, ap, subst, foldl, length,
  arith, Bool-cases, inl, inr,
}
use flowscape.Base.Dict
use flowscape.Base.Keyed.{IsKeyed}
use flowscape.Base.StringSet
use flowscape.Base.Numbers.{Numbers}
use flowscape.GraphState.Types.{Changes}
use flowscape.GraphState.Keyed.{IsFiled}
use flowscape.GraphState.Pending.Rendering.{follow, membership_dirty}
use flowscape.Layout.Rebuild.{rebuild}
use flowscape.Layout.Coverage.{rebuild-targets}
use flowscape.Edges.Types.{Edges, batch_of}
use flowscape.Edges.Operations.{set_same}
use flowscape.Edges.Ownership.{IsValid}
use flowscape.Edges.Regrouping.{set_same-IsValid}
use flowscape.Frames.Types.{World}
use flowscape.Frames.ArcIds.{
  on, on-drop_edges, on-take_edges, drop_edges-IsValid, take_edges-IsValid,
}
use flowscape.Frames.NodeIds.{shown, shown-kept, shown-take_targets, missing}
use flowscape.Frames.Operations.{
  is_machine_mode, keep_changes, lay, relayout, take_added, follow_changes, drop_edges, retint,
  drop_nodes,
}

module _ (N : Numbers) {A : Type 0} (le locale_le : String → String → Bool) (head : String → String)
    (node_room edge_room spark_room : ℕ) (full : A) where
  -- What a frame takes up finds room: the first batch has a slot for each arc that is noted as added,
  -- and `Nodes` an index for each node that is not on the screen.
  pub record HasRoom (c : Changes) (w : World N A) : Type 0 where
    pub arcs : length c.added_edges ≤ length (batch_of (drop_edges edge_room full c w.arcs) 0).free
    pub nodes :
        let kept = foldl (retint N w.graph) (drop_nodes N c w.nodes) c.touched_nodes in
        missing N kept (rebuild N le locale_le w.layout w.graph.nodes).targets ≤ length kept.free

  abbrev pub laid : Changes → World N A → World N A
  laid c w =
      lay N le locale_le head node_room edge_room spark_room full
        (keep_changes N le locale_le head node_room edge_room spark_room full c w)

  abbrev pub followed : Changes → World N A → World N A
  followed c w = follow_changes N le locale_le head node_room edge_room spark_room full c w

  module _ (c : Changes) (w : World N A) (filed : IsFiled w.graph)
      (slotted : IsValid edge_room w.arcs) (tidy : w.dirty ≡ false) where
    -- What `lay` changes of the arcs.
    laid_arcs :
        (P : Edges A → Type 0)
        → P (drop_edges edge_room full c w.arcs)
        → ((same : String → String → Bool)
            → P (set_same edge_room full (drop_edges edge_room full c w.arcs) same w.graph.edges))
        → P (laid c w).arcs
    unfolding lay keep_changes relayout
    laid_arcs P kept regrouped =
        elim (Bool-cases (w.dirty || membership_dirty (is_machine_mode w.layout.group_by) c)) [
          | inl q ↦ rw q (regrouped _)
          | inr q ↦ rw q kept
        ]

    -- Nothing else that the frames go by changes, and the membership is clean again.
    pub record IsSettled (w' : World N A) : Type 0 where
      pub graph : w'.graph ≡ w.graph
      pub by_machine : is_machine_mode w'.layout.group_by ≡ is_machine_mode w.layout.group_by
      pub clean : w'.dirty ≡ false

    pub laid-IsSettled : IsSettled (laid c w)
    unfolding lay keep_changes relayout rebuild
    laid-IsSettled =
        elim (Bool-cases (w.dirty || membership_dirty (is_machine_mode w.layout.group_by) c)) [
          | inl q ↦ rw q (record { graph = refl; by_machine = refl; clean = refl })
          | inr q ↦ rw q (record { graph = refl; by_machine = refl; clean = refl })
        ]

    module _ (room : HasRoom c w) where
      pub laid-nodes :
          (x : String)
          → shown N (laid c w).nodes x
            ≡ follow
                (shown N w.nodes)
                (λ y. Dict.has y w.graph.nodes)
                (λ _. membership_dirty (is_machine_mode w.layout.group_by) c)
                c.removed_nodes
                x
      unfolding lay keep_changes relayout follow
      laid-nodes x =
          elim (Bool-cases (w.dirty || membership_dirty (is_machine_mode w.layout.group_by) c)) [
            | inl q ↦
                let all = rebuild-targets N le locale_le w.layout w.graph.nodes x filed.nodes in
                let new =
                  shown-take_targets N w.graph filed.nodes
                    (rebuild N le locale_le w.layout w.graph.nodes).targets
                    (foldl (retint N w.graph) (drop_nodes N c w.nodes) c.touched_nodes) x
                    room.nodes in
                let old = shown-kept N w.graph c w.nodes x in
                let dirty : membership_dirty (is_machine_mode w.layout.group_by) c ≡ true =
                  ground arith in
                rw q (rw dirty (ground (arith, new, all, old)))
            | inr q ↦
                let old = shown-kept N w.graph c w.nodes x in
                let dirty : membership_dirty (is_machine_mode w.layout.group_by) c ≡ false =
                  ground arith in
                rw q (rw dirty (ground (arith, old)))
          ]

      -- The arcs after `setSame`, where the membership changed.
      record IsLaid (e : Edges A) : Type 0 where
        valid : IsValid edge_room e
        ids :
            (x : String)
            → on edge_room full e x
              ≡ on edge_room full w.arcs x && not (StringSet.has x c.removed_edges)
        free :
            length (batch_of (drop_edges edge_room full c w.arcs) 0).free
            ≤ length (batch_of e 0).free

      laid-IsLaid : IsLaid (laid c w).arcs
      unfolding set_same
      laid-IsLaid =
          let v = drop_edges-IsValid edge_room full c w.arcs slotted in
          laid_arcs IsLaid
            (record { valid = v; ids = on-drop_edges edge_room full c w.arcs; free = omega arith })
            (λ same. record {
              valid = set_same-IsValid edge_room full _ same w.graph.edges v;
              ids = λ x. Dict.has-map_values _ x _ ∙ on-drop_edges edge_room full c w.arcs x;
              free = omega arith;
            })

      pub followed-arcs :
          (x : String)
          → on edge_room full (followed c w).arcs x
            ≡ follow
                (on edge_room full w.arcs)
                (λ y. Dict.has y w.graph.edges)
                (λ y. StringSet.has y c.added_edges)
                c.removed_edges
                x
      unfolding follow_changes take_added follow
      followed-arcs x =
          let k = laid-IsLaid in
          let s = laid-IsSettled in
          let keyed : IsKeyed (λ e. e.id) (laid c w).graph.edges =
            subst (λ g. IsKeyed (λ e. e.id) g.edges) (sym s.graph) filed.edges in
          let enough : length c.added_edges ≤ length (batch_of (laid c w).arcs 0).free =
            omega (arith, k.free, room.arcs) in
          on-take_edges edge_room full (laid c w).graph _ keyed c.added_edges (laid c w).arcs x
            k.valid enough
          ∙ ground (arith, k.ids x, ap (λ g. Dict.has x g.edges) s.graph)

      pub followed-IsValid : IsValid edge_room (followed c w).arcs
      unfolding follow_changes take_added
      followed-IsValid =
          take_edges-IsValid edge_room full (laid c w).graph _ c.added_edges (laid c w).arcs
            laid-IsLaid.valid

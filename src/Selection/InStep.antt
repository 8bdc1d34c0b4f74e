-- ===== src/Selection/InStep.antt =====
-- The marks on nodes and edges against what is hovered and selected.
use flowscape.Base.{
  ℕ, ◌+◌, ◌≤◌, ◌-◌, String, Bool, true, false, ◌≡◌, ◌≢◌, refl, List, [], ◌∷◌, foldl, foldl_keeps,
  Option, none, some, ltb, Bool-cases, Option-cases, inl, inr, ===_refl, arith, ◌∙◌,
}
use flowscape.Selection.Types.{
  Pick, node, edge, nothing, node_id, edge_id, Marks, Selection, Event, moves, leaves, presses,
  releases, frames, escapes, navigates,
}
use flowscape.Selection.Handlers.{
  same_pick, on_hover, hover_emphasis, select, on_click, begin, set_hovered, update, release,
  handle,
}

-- What is marked is what is hovered and what is selected, and a selection decides the emphasis.
pub record IsMarked (hovered : Pick) (k : Marks) : Type 0 where
  pub node_hovered : k.nodes_hovered ≡ node_id hovered
  pub edge_hovered : k.edges_hovered ≡ edge_id hovered
  pub node_selected : k.nodes_selected ≡ node_id k.selected
  pub edge_selected : k.edges_selected ≡ edge_id k.selected
  pub emphasis : k.selected ≢ nothing → k.emphasised_node ≡ node_id k.selected

pub hover-emphasis :
    (p selected : Pick) (old : Option String)
    → selected ≢ nothing
    → hover_emphasis p selected old ≡ old
hover-emphasis (node id) nothing old some_one = absurd (some_one refl)
hover-emphasis (edge id) nothing old some_one = absurd (some_one refl)
hover-emphasis nothing nothing old some_one = absurd (some_one refl)
hover-emphasis (node id) (node s) old some_one = refl
hover-emphasis (edge id) (node s) old some_one = refl
hover-emphasis nothing (node s) old some_one = refl
hover-emphasis (node id) (edge s) old some_one = refl
hover-emphasis (edge id) (edge s) old some_one = refl
hover-emphasis nothing (edge s) old some_one = refl

on_hover-IsMarked : (p q : Pick) (k : Marks) → IsMarked q k → IsMarked p (on_hover p k)
unfolding on_hover
on_hover-IsMarked p q k m = record {
  node_hovered = refl;
  edge_hovered = refl;
  node_selected = m.node_selected;
  edge_selected = m.edge_selected;
  emphasis =
      λ some_one. hover-emphasis p k.selected k.emphasised_node some_one ∙ m.emphasis some_one;
}

select-IsMarked : (p q : Pick) (k : Marks) → IsMarked q k → IsMarked q (select p k)
unfolding select
select-IsMarked p q k m = record {
  node_hovered = m.node_hovered;
  edge_hovered = m.edge_hovered;
  node_selected = refl;
  edge_selected = refl;
  emphasis = λ some_one. refl;
}

click_again :
    (p : Pick) (k : Marks)
    → k.selected ≡ nothing
    → let again = on_click p (on_click p k) in
      (again.selected ≡ nothing) × (again.emphasised_node ≡ none)
unfolding on_click select
click_again (node id) k e = rw e (rw (===_refl id) (refl, refl))
click_again (edge id) k e = rw e (rw (===_refl id) (refl, refl))
click_again nothing k e = rw e (refl, refl)

module _ {P : Type 0} where
  abbrev pub InStep : Selection P → Type 0
  InStep s = IsMarked s.picking.hovered s.marks

  set_hovered-InStep : (s : Selection P) (p : Pick) → InStep s → InStep (set_hovered s p)
  unfolding set_hovered
  set_hovered-InStep s p m = elim (Bool-cases (same_pick p s.picking.hovered)) [
    | inl q ↦ rw q m
    | inr q ↦ rw q (on_hover-IsMarked p s.picking.hovered s.marks m)
  ]

  module _ (pick : P → Pick) (near : P → P → Bool) where
    update-InStep : (s : Selection P) (now : ℕ) → InStep s → InStep (update pick near s now)
    unfolding update
    update-InStep s now m = elim (Option-cases s.picking.pending) [
      | inl n ↦ rw (n, update) m
      | inr (x, n) ↦
          rw (n, update)
            (elim (Bool-cases (ltb (now - s.picking.last) 33)) [
              | inl q ↦ rw q m
              | inr q ↦ rw q (
                  set_hovered-InStep
                    (record s { picking = record s.picking { last = now; pending = none } })
                    (pick x) m)
            ])
    ]

    release-InStep : (s : Selection P) (x : P) → InStep s → InStep (release pick near s x)
    unfolding release on_click
    release-InStep s x m = elim (Option-cases s.picking.down) [
      | inl n ↦ rw (n, release) m
      | inr (y, n) ↦
          rw (n, release)
            (elim (Bool-cases (near y x)) [
              | inl q ↦ rw q (select-IsMarked _ s.picking.hovered s.marks m)
              | inr q ↦ rw q m
            ])
    ]

    handle-InStep : (s : Selection P) (ev : Event P) → InStep s → InStep (handle pick near s ev)
    unfolding handle
    handle-InStep s (moves x) m = m
    handle-InStep s leaves m =
        set_hovered-InStep (record s { picking = record s.picking { pending = none } }) nothing m
    handle-InStep s (presses x) m = m
    handle-InStep s (releases x) m = release-InStep s x m
    handle-InStep s (frames now) m = update-InStep s now m
    handle-InStep s escapes m = select-IsMarked nothing s.picking.hovered s.marks m
    handle-InStep s (navigates p) m = select-IsMarked p s.picking.hovered s.marks m

    -- Whatever the user does: nodes and edges are marked as hovered and as selected exactly as the
    -- pointer and the selection say, and while something is selected the emphasis is on it if it is a
    -- node, and on nothing otherwise.
    pub events-InStep : (evs : List (Event P)) → InStep (foldl (handle pick near) begin evs)
    unfolding begin
    events-InStep evs = foldl_keeps InStep (handle pick near) handle-InStep evs begin (record {
      node_hovered = refl;
      edge_hovered = refl;
      node_selected = refl;
      edge_selected = refl;
      emphasis = λ some_one. absurd (some_one refl);
    })

    -- A pointer that goes from a node straight to an arc leaves the emphasis on the node, whether or
    -- not something is selected: its arcs stay bright though the pointer is elsewhere.
    pub emphasis_stays :
        (s : Selection P) (x : P) (now : ℕ) (id arc : String)
        → s.picking.hovered ≡ node id
        → s.marks.emphasised_node ≡ some id
        → s.picking.last + 33 ≤ now
        → pick x ≡ edge arc
        → let t = foldl (handle pick near) s (moves x ∷ frames now ∷ []) in
          (t.picking.hovered ≡ edge arc) × (t.marks.emphasised_node ≡ some id)
    unfolding handle update set_hovered on_hover
    emphasis_stays s x now id arc over bright late hit =
        let waited : ltb (now - s.picking.last) 33 ≡ false = ground arith in
        rw (waited, hit, over) (refl, bright)

    -- Two clicks on one place, with nothing selected before, leave nothing selected.
    pub two_clicks :
        (s : Selection P) (x : P)
        → s.marks.selected ≡ nothing
        → near x x ≡ true
        → let t =
            foldl (handle pick near) s (presses x ∷ releases x ∷ presses x ∷ releases x ∷ []) in
          (t.marks.selected ≡ nothing) × (t.marks.emphasised_node ≡ none)
    unfolding handle release
    two_clicks s x unselected close = rw close (click_again (pick x) s.marks unselected)

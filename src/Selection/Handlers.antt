-- ===== src/Selection/Handlers.antt =====
-- The handlers of the pointer. `pick`, which casts a ray into the scene, and `near`, whether two
-- positions are at most 4 pixels apart, are arguments.
use flowscape.Base.{
  ℕ, ◌-◌, String, Bool, true, false, Option, none, some, ltb, ◌===◌, if◌then◌else◌,
}
use flowscape.Selection.Types.{
  Pick, node, edge, nothing, node_id, edge_id, Marks, Selection, Event, moves, leaves, presses,
  releases, frames, escapes, navigates,
}

-- `p?.kind === q?.kind && p?.id === q?.id`
abbrev pub same_pick : Pick → Pick → Bool
same_pick (node a) (node b) = a === b
same_pick (edge a) (edge b) = a === b
same_pick nothing nothing = true
same_pick _ _ = false

abbrev pub no_marks : Marks
no_marks = record {
  selected = nothing;
  nodes_selected = none;
  edges_selected = none;
  nodes_hovered = none;
  edges_hovered = none;
  emphasised_node = none;
}

-- The emphasis after the pointer came over `p`, where `old` is the emphasis and `selected` what is
-- selected.
abbrev pub hover_emphasis : Pick → Pick → Option String → Option String
hover_emphasis (node id) nothing old = some id
hover_emphasis nothing nothing old = none
hover_emphasis _ _ old = old

-- `onHover`, past the help text.
unfoldable pub on_hover : Pick → Marks → Marks
on_hover p k = record k {
  nodes_hovered = node_id p;
  edges_hovered = edge_id p;
  emphasised_node = hover_emphasis p k.selected k.emphasised_node;
}

-- `select`, past the panel.
unfoldable pub select : Pick → Marks → Marks
select p k = record k {
  selected = p;
  nodes_selected = node_id p;
  edges_selected = edge_id p;
  emphasised_node = node_id p;
}

-- `onClick`: what is selected already is selected no longer.
unfoldable pub on_click : Pick → Marks → Marks
on_click p k = select (if same_pick p k.selected then nothing else p) k

module _ {P : Type 0} where
  unfoldable pub begin : Selection P
  begin = record {
    picking = record { pending = none; last = 0; hovered = nothing; down = none };
    marks = no_marks;
  }

  unfoldable pub set_hovered : Selection P → Pick → Selection P
  unfolding on_hover
  set_hovered s p =
      if same_pick p s.picking.hovered
      then s
      else record s { picking = record s.picking { hovered = p }; marks = on_hover p s.marks }

module _ {P : Type 0} (pick : P → Pick) (near : P → P → Bool) where
  -- On a frame the pointer is looked at again after 33 milliseconds at the least.
  unfoldable pub update : Selection P → ℕ → Selection P
  update s now = elim s.picking.pending [
    | none ↦ s
    | some x ↦
        if ltb (now - s.picking.last) 33
        then s
        else set_hovered (record s { picking = record s.picking { last = now; pending = none } })
            (pick x)
  ]

  -- The button comes up.
  unfoldable pub release : Selection P → P → Selection P
  release s x = elim s.picking.down [
    | none ↦ s
    | some y ↦
        if near y x
        then record s {
          picking = record s.picking { down = none };
          marks = on_click (pick x) s.marks;
        }
        else s
  ]

  unfoldable pub handle : Selection P → Event P → Selection P
  handle s (moves x) = record s { picking = record s.picking { pending = some x } }
  handle s leaves = set_hovered (record s { picking = record s.picking { pending = none } }) nothing
  handle s (presses x) = record s { picking = record s.picking { down = some x } }
  handle s (releases x) = release s x
  handle s (frames now) = update s now
  handle s escapes = record s { marks = select nothing s.marks }
  handle s (navigates p) = record s { marks = select p s.marks }

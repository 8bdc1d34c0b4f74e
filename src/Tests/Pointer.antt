-- ===== src/Tests/Pointer.antt =====
-- The theorems on the pointer, where a position is a number: 1 is over a node, 2 over an arc.
use flowscape.Base.{ℕ, zero, suc, ◌≡◌, refl, [], ◌∷◌, foldl, none, some, eqb, arith}
use flowscape.Selection.Types.{
  Pick, node, edge, nothing, Selection, moves, frames, leaves, presses, releases, escapes,
}
use flowscape.Selection.Handlers.{handle, begin}
use flowscape.Selection.InStep.{InStep, events-InStep, emphasis_stays}

abbrev pick : ℕ → Pick
pick zero = nothing
pick (suc zero) = node "web"
pick (suc (suc x)) = edge "e1"

abbrev on_node : Selection ℕ
on_node = record {
  picking = record { pending = none; last = 100; hovered = node "web"; down = none };
  marks = record {
    selected = nothing;
    nodes_selected = none;
    edges_selected = none;
    nodes_hovered = some "web";
    edges_hovered = none;
    emphasised_node = some "web";
  };
}

events-InStep_example : InStep (
    foldl
      (handle pick eqb)
      begin
      (moves 1 ∷ frames 40 ∷ presses 1 ∷ releases 1 ∷ moves 2 ∷ frames 80 ∷ escapes ∷ leaves ∷ []))
events-InStep_example =
    events-InStep pick eqb
      (moves 1 ∷ frames 40 ∷ presses 1 ∷ releases 1 ∷ moves 2 ∷ frames 80 ∷ escapes ∷ leaves ∷ [])

emphasis_stays_example :
    let t = foldl (handle pick eqb) on_node (moves 2 ∷ frames 140 ∷ []) in
    (t.picking.hovered ≡ edge "e1") × (t.marks.emphasised_node ≡ some "web")
emphasis_stays_example =
    emphasis_stays pick eqb on_node 2 140 "web" "e1" refl refl (omega arith) refl

-- ===== src/Selection/Types.antt =====
-- The state of `Picking` in web/src/picking.ts, and of the selection in web/src/main.ts.
use flowscape.Base.{ℕ, String, Option, none, some}

-- `Pick`: a node, an edge, or null.
pub data Pick : Type 0 where
  node : String → Pick
  edge : String → Pick
  nothing : Pick

-- `p?.kind === "node" ? p.id : null`
abbrev pub node_id : Pick → Option String
node_id (node id) = some id
node_id (edge id) = none
node_id nothing = none

-- `p?.kind === "edge" ? p.id : null`
abbrev pub edge_id : Pick → Option String
edge_id (node id) = none
edge_id (edge id) = some id
edge_id nothing = none

-- `P` is the type of the pointer's positions. `down` is the variable of the constructor.
pub record Picking (P : Type 0) : Type 0 where
  pub pending : Option P
  pub last : ℕ
  pub hovered : Pick
  pub down : Option P

-- The fields of `Nodes` and `Edges` that the handlers set, beside `selected`.
pub record Marks : Type 0 where
  pub selected : Pick
  pub nodes_selected : Option String
  pub edges_selected : Option String
  pub nodes_hovered : Option String
  pub edges_hovered : Option String
  pub emphasised_node : Option String

pub record Selection (P : Type 0) : Type 0 where
  pub picking : Picking P
  pub marks : Marks

-- What the user, the browser and the frame loop do: the pointer moves, leaves, goes down and up, a
-- frame begins at a time in milliseconds, escape is pressed, a link of the panel is followed.
pub data Event (P : Type 0) : Type 0 where
  moves : P → Event P
  leaves : Event P
  presses : P → Event P
  releases : P → Event P
  frames : ℕ → Event P
  escapes : Event P
  navigates : Pick → Event P

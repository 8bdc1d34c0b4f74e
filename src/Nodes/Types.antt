-- ===== src/Nodes/Types.antt =====
-- The state of web/src/nodes.ts.
use flowscape.Base.{ℕ, String, Bool, List, Option}
use flowscape.Base.Dict.{Dict}
use flowscape.Base.Numbers.{Numbers, Vec3}

-- `label` says that the slot has a label. The colour, which `ns` decides, is left out.
pub record Slot (N : Numbers) : Type 0 where
  pub index : ℕ
  pub id : String
  pub ns : String
  pub reserved : Bool
  pub target : Vec3 N
  pub activity : N.R
  pub hidden : Bool
  pub label : Bool
  pub label_text : String
  pub machine : String
  pub unavailable : Bool

-- `by_index` has the id of the slot object that `byIndex` holds, `positions` three numbers to an
-- element, and `free` first the index that `pop` takes.
pub record Nodes (N : Numbers) : Type 0 where
  pub positions : List (Vec3 N)
  pub slots : Dict (Slot N)
  pub by_index : List (Option String)
  pub free : List ℕ
  pub label_budget : ℕ
  pub selected : Option String
  pub hovered : Option String
  pub emphasised_machine : Option String
  pub label_tick : ℕ

-- ===== src/Layout/Types.antt =====
-- The state of the class `Layout` in web/src/layout.ts.
use flowscape.Base.{ℕ, String, List, [], Option, none, some, ◌===◌, if◌then◌else◌}
use flowscape.Base.Dict.{Dict}
use flowscape.Base.Numbers.{Numbers, Vec3}
use flowscape.GraphState.Types.{NodeState}
use flowscape.Filters.Types.{GroupBy, by_namespace, by_machine}

pub record Platform (N : Numbers) : Type 0 where
  pub group : String
  pub kind : GroupBy
  pub center : Vec3 N
  pub radius : N.R
  pub angle : N.R
  pub nodes : List String

pub record Layout (N : Numbers) : Type 0 where
  pub platforms : Dict (Platform N)
  pub targets : Dict (Vec3 N)
  pub group_by : GroupBy
  pub ring_radius : N.R
  pub outer_radius : N.R
  pub max_world : ℕ

-- `UNPLACED`
abbrev pub unplaced : String
unplaced = "unplaced"

-- `machine || UNPLACED`
abbrev pub or_unplaced : Option String → String
or_unplaced none = unplaced
or_unplaced (some m) = if m === "" then unplaced else m

unfoldable pub group_of : GroupBy → NodeState → String
group_of by_namespace n = n.ns
group_of by_machine n = or_unplaced n.machine

unfoldable pub init : (N : Numbers) → Layout N
init N = record {
  platforms = [];
  targets = [];
  group_by = by_namespace;
  ring_radius = N.of 14;
  outer_radius = N.of 24;
  max_world = 24;
}

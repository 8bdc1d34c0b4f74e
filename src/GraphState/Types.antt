-- ===== src/GraphState/Types.antt =====
-- The state that web/src/graph-state.ts keeps: `NodeState`, `EdgeState`, `Changes` and the fields of
-- the class `GraphState`. The objects that a map holds are changed through `Dict.modify`; nobody else
-- keeps a reference to them across the operations modelled here.
use flowscape.Base.{ℕ, String, Bool, false, List, [], Option, max}
use flowscape.Base.Int.{ℤ}
use flowscape.Base.Dict.{Dict}
use flowscape.Base.StringSet.{StringSet}
use flowscape.Protocol.{L7, Spark, Verdict, forwarded, dropped, audit, error}

-- `[number, number, number, number]`: one counter for each verdict.
pub record Counts : Type 0 where
  pub f : ℕ
  pub d : ℕ
  pub a : ℕ
  pub e : ℕ

unfoldable pub pick : Verdict → Counts → ℕ
pick forwarded c = c.f
pick dropped c = c.d
pick audit c = c.a
pick error c = c.e

pub record NodeState : Type 0 where
  pub id : String
  pub ns : String
  pub kind : String
  pub name : String
  pub fqdn : Option String
  pub machine : Option String
  pub labels : Option (List (String × String))
  pub first : ℕ
  pub last : ℕ
  pub edges : StringSet

-- `ring` is the `Uint32Array`, four counters to a slot, and `epochs` the `Float64Array`.
pub record EdgeState : Type 0 where
  pub id : String
  pub src : String
  pub dst : String
  pub proto : String
  pub port : ℕ
  pub totals : Counts
  pub last : ℕ
  pub latency_ms : ℕ
  pub l7 : Option L7
  pub drops : Option (List (String × ℕ))
  pub ring : List ℕ
  pub epochs : List ℤ

pub record Changes : Type 0 where
  pub added_nodes : List String
  pub removed_nodes : List String
  pub added_edges : List String
  pub removed_edges : List String
  pub touched_edges : List String
  pub touched_nodes : List String
  pub sparks : List Spark
  pub ts : ℕ
  pub reset : Bool

pub record GraphState : Type 0 where
  pub nodes : Dict NodeState
  pub edges : Dict EdgeState
  pub retention : ℕ
  pub added_nodes : StringSet
  pub removed_nodes : StringSet
  pub added_edges : StringSet
  pub removed_edges : StringSet
  pub touched_edges : StringSet
  pub touched_nodes : StringSet
  pub sparks : List Spark
  pub ts : ℕ
  pub reset : Bool

-- The constructor.
unfoldable pub init : ℕ → GraphState
init retention_seconds = record {
  nodes = [];
  edges = [];
  retention = max 10 retention_seconds;
  added_nodes = [];
  removed_nodes = [];
  added_edges = [];
  removed_edges = [];
  touched_edges = [];
  touched_nodes = [];
  sparks = [];
  ts = 0;
  reset = false;
}

-- ===== src/Frames/Types.antt =====
-- The variables of web/src/main.ts that `applyChanges` reads and writes.
use flowscape.Base.{String, Bool, List}
use flowscape.Base.StringSet.{StringSet}
use flowscape.Base.Numbers.{Numbers}
use flowscape.GraphState.Types.{GraphState}
use flowscape.Layout.Types.{Layout}
use flowscape.Nodes.Types.{Nodes}
use flowscape.Edges.Types.{Edges}
use flowscape.Filters.Types.{FiltersPanel}
use flowscape.Particles.Sweep.{Swarm}
use flowscape.Particles.Sparks.{Spark}

-- `dirty` is `membershipDirty`, `unavailable` is `status?.unavailable ?? []`; `A` are the opacities.
pub record World (N : Numbers) (A : Type 0) : Type 0 where
  pub graph : GraphState
  pub layout : Layout N
  pub nodes : Nodes N
  pub arcs : Edges A
  pub filters : FiltersPanel
  pub machines : StringSet
  pub unavailable : List String
  pub dirty : Bool
  pub sparks : Swarm (Spark N)

-- ===== src/GraphState/Pending.antt =====
-- What the renderer is told: `Changes` against the ids that it holds. `base` stands for the ids that
-- it held when it last called `consume`.
pub mod Flags
pub mod Edges
pub mod Nodes
pub mod Snapshots
pub mod Ticks
pub mod Resync
pub mod Rendering
pub mod Exact
pub mod InStep
pub mod Lost

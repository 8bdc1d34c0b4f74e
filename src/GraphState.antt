-- ===== src/GraphState.antt =====
-- web/src/graph-state.ts: the client's copy of the graph.
pub mod Types
pub mod Ring
pub mod Operations
pub mod Pending
pub mod Keyed

-- ===== src/Frames.antt =====
-- `applyChanges` of web/src/main.ts on the real layout, nodes, arcs, chips and sparks: the frame after
-- some messages.
pub mod Types
pub mod Operations
pub mod ArcIds
pub mod NodeIds
pub mod Refined
pub mod Showing
pub mod Rates
pub mod Seen
pub mod Rated
pub mod Runs
pub mod InStep

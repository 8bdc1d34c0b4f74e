-- ===== src/Edges.antt =====
-- The class `Edges` of web/src/edges.ts: which arc stands in which slot of the three batches of
-- lines. The arrays and the meshes that the slots are drawn with belong to three.js and are left out.
pub mod Types
pub mod Operations
pub mod Cells
pub mod Ownership
pub mod Placing
pub mod Vacating
pub mod Steps
pub mod Lookups
pub mod Regrouping
pub mod Calls
pub mod Setters

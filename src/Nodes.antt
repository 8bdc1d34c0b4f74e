-- ===== src/Nodes.antt =====
-- The class `Nodes` of web/src/nodes.ts: which node stands in which instance of the meshes, where it
-- is, and which nodes have a label. The meshes, their colours and the elements of the labels belong
-- to three.js and the page and are left out.
pub mod Types
pub mod Pool
pub mod Release
pub mod Operations
pub mod Update
pub mod Calls
pub mod Labels

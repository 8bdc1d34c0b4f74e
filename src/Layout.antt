-- ===== src/Layout.antt =====
-- web/src/layout.ts: where each node stands.
pub mod Types
pub mod Sorting
pub mod Grouping
pub mod Rebuild
pub mod Groups
pub mod Coverage

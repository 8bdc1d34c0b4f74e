-- ===== src/Selection.antt =====
-- What the pointer is over and what is selected: the class `Picking` of web/src/picking.ts and the
-- handlers `onHover`, `onClick` and `select` of web/src/main.ts.
pub mod Types
pub mod Handlers
pub mod InStep

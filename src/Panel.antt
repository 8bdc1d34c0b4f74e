-- ===== src/Panel.antt =====
-- The class `Panel` of web/src/panel.ts: the details of what is selected.
pub mod Escape
pub mod Rows
pub mod Sorted
pub mod Pages
pub mod Shown
pub mod Gone

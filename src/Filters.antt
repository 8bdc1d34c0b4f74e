-- ===== src/Filters.antt =====
-- The controls on the left: `Filters` and `FiltersPanel` of web/src/filters.ts, and which edges they
-- hide in web/src/main.ts. The buttons themselves and the order in which they stand are left out.
pub mod Types
pub mod Operations
pub mod Solo
pub mod Visible
pub mod Alone
pub mod Status

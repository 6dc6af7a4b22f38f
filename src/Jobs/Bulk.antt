-- ===== src/Jobs/Bulk.antt =====
-- internal/jobs/bulk_action.go: one action on all items that match a query, in batches.
pub mod Filter
pub mod Items
pub mod Action
pub mod Arguments
pub mod Matches
pub mod Selects
pub mod Rounds
pub mod Drains
pub mod Totals
pub mod Marks
pub mod Finishes
pub mod Sample
pub mod Tests

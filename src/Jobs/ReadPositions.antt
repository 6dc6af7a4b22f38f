-- ===== src/Jobs/ReadPositions.antt =====
-- internal/jobs/sync_read_positions.go: the job that writes buffered reading progress to the table.
pub mod Sets
pub mod Sync
pub mod Order
pub mod Forward
pub mod Named
pub mod Twice
pub mod Sample
pub mod Tests

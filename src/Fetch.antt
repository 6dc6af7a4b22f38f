-- ===== src/Fetch.antt =====
-- internal/handler/handler.go: the job fetch-content, which fetches a page and queues a save-page
-- job for each of its users.
pub mod Job
pub mod Process
pub mod Paths
pub mod Sample
pub mod Tests

-- ===== src/Jobs/AllFeeds.antt =====
-- internal/jobs/refresh_all_feeds.go: the job that adds one poll for each feed.
pub mod Groups
pub mod Enqueue
pub mod JobId
pub mod Members
pub mod Stuck
pub mod Sample
pub mod Tests

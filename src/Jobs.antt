-- ===== src/Jobs.antt =====
-- internal/jobs: what the backend worker does with the jobs of its queue.
pub mod Bulk
pub mod Feed
pub mod AllFeeds
pub mod SavePage
pub mod Rules
pub mod ReadPositions

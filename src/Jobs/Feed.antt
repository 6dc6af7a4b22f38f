-- ===== src/Jobs/Feed.antt =====
-- internal/jobs/refresh_feed.go: one poll of a feed for all who subscribe to it.
pub mod Items
pub mod Tasks
pub mod World
pub mod Subscription
pub mod Refresh
pub mod Newer
pub mod Forgets
pub mod Blocked
pub mod Sample
pub mod Tests

-- ===== src/Jobs/SavePage.antt =====
-- internal/jobs/save_page.go: the job save-page, which turns fetched content into a library item.
pub mod Slug
pub mod Page
pub mod Save
pub mod Slugs
pub mod Rows
pub mod Saved
pub mod Sample
pub mod Tests

-- ===== src/SaveUrl.antt =====
-- internal/service/save_url.go: a URL is checked, cleaned, stored as an item and sent to the
-- content-fetch queue.
pub mod Address
pub mod Items
pub mod Service
pub mod Once
pub mod Private
pub mod Sample
pub mod Tests

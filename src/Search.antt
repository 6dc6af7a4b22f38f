-- ===== src/Search.antt =====
-- internal/service/search.go: the search service.
pub mod Query
pub mod Conditions
pub mod Library
pub mod Service

-- ===== src/Jobs/Rules.antt =====
-- internal/jobs/trigger_rule.go: the job that applies the rules of an event.
pub mod Trigger
pub mod Within
pub mod Scope
pub mod Unchanged
pub mod Atomic
pub mod Sample
pub mod Tests

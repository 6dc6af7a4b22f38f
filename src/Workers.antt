-- ===== src/Workers.antt =====
-- internal/queueprocessor/worker.go and internal/queue/worker.go: the workers of the two queues.
pub mod Process
pub mod Settled
pub mod Tests

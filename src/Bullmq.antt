-- ===== src/Bullmq.antt =====
-- internal/bullmq/bullmq.go: the job queues in Redis.
pub mod Keys
pub mod Redis
pub mod Queue

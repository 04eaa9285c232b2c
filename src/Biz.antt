-- ===== src/Biz.antt =====
-- The use cases of internal/biz, over the interfaces that the data layer fills.
pub mod Ports
pub mod Migrator
pub mod CronJob
pub mod Executor
pub mod SafeChan
pub mod Trigger
pub mod Scheduler

-- ===== src/Lock.antt =====
-- The distributed lock of pkg/lock/redis.go.
pub mod Options
pub mod Client
pub mod Blocking
pub mod Owner
pub mod Release
pub mod Mutex
pub mod Lease
pub mod Waiting

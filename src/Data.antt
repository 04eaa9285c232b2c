-- ===== src/Data.antt =====
-- The data layer: internal/data.
pub mod Gorm
pub mod Repos
pub mod TaskCache
pub mod Rollback
pub mod Fallback
pub mod Migration
pub mod Start

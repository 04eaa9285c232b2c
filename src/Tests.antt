-- ===== src/Tests.antt =====
-- The theorems at concrete inputs, and runs of the definitions.
mod Server
mod Biz
mod Rounds
mod Slice
mod Handed
mod Fallback
mod Lock
mod Keys
mod Cron
mod MemoryCache
mod RedisClient
mod Leases
mod Start
mod Handlers
mod Router
mod Process
mod Migration
mod Called
mod Pass

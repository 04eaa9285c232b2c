-- ===== src/RedisClient.antt =====
-- pkg/cache/redis-cli.go: the client of redis, a method for each command.
pub mod Conn
pub mod Replies
pub mod Strings
pub mod Sets
pub mod Hashes
pub mod Lists
pub mod SortedSets
pub mod Bloom
pub mod Relays
pub mod Families
pub mod ReplyLaws
pub mod Converted

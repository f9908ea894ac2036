-- ===== src/Redis.antt =====
-- crates/driver-redis.
pub mod Command
pub mod Reply
pub mod Schema
pub mod Query
pub mod Keys
pub mod Stream
mod Tests

-- ===== src/Secrets.antt =====
-- crates/secrets: secrets by their keys.
pub mod FileStore
mod Tests

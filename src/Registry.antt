-- ===== src/Registry.antt =====
-- crates/registry: attempts are fenced by a generation counter for each connection id, and only
-- the current attempt may install its session. `Attempts` and `Sessions` are the two registries.
pub mod Attempts
pub mod Sessions
mod Tests

-- ===== src/Profiles.antt =====
-- crates/connection-profiles: named connections. What may be read in the clear is in one file, and
-- the password is in the secret store.
pub mod Profile
pub mod Manager
pub mod Memory
mod Tests

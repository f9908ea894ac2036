-- ===== src/Postgres.antt =====
-- crates/driver-postgres.
pub mod Ident
pub mod Errors
pub mod Cells
pub mod Query
pub mod Tls
pub mod Config
pub mod Stream
pub mod Driver
mod Tests

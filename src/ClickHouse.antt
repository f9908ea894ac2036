-- ===== src/ClickHouse.antt =====
-- crates/driver-clickhouse.
pub mod Ident
pub mod Params
pub mod Tsv
pub mod Statement
pub mod Tls
pub mod Request
pub mod Body
pub mod Query
pub mod Stream
pub mod Driver
mod Tests

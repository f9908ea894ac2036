-- ===== src/Connections.antt =====
-- crates/connections: the live connections of the server.
pub mod Manager
mod Tests

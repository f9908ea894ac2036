-- ===== src/Wire.antt =====
-- crates/mcp-wire.
pub mod Sse
pub mod JsonRpc
pub mod Json
mod Tests

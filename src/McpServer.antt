-- ===== src/McpServer.antt =====
-- crates/mcp-server: tools behind a registry, and the session that dispatches requests to them.
pub mod Tool
pub mod Registry
pub mod Session
mod Tests

-- ===== src/Tools.antt =====
-- crates/connections/src/tools: the tools that a client calls on connections and profiles.
pub mod Export
pub mod Support
pub mod Connection
pub mod Connect
pub mod SavedProfiles
mod Tests

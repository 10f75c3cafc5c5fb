-- ===== src/Mcp.antt =====
-- mcp/src: the server that exposes the hub's API as tools.
pub mod Security
pub mod Json
pub mod Session
pub mod Client
pub mod Tools
pub mod Verb
pub mod Calls
pub mod Emits
pub mod Safety
pub mod Deletes
pub mod Confirmation
pub mod Paths
pub mod Config
pub mod Updates
mod Tests

-- ===== src/Legacy.antt =====
-- The MCP 2025-06-18 adapter, src/mcp_heartbeat_legacy/.
pub mod Failures
pub mod Negotiation
pub mod Capabilities
pub mod Session
pub mod Identity
pub mod Resources
pub mod Consumer
pub mod Rendering

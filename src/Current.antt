-- ===== src/Current.antt =====
-- The MCP 2026-07-28 adapter, src/mcp_heartbeat_current/.
pub mod Failures
pub mod Identity
pub mod Convergence
pub mod Contract
pub mod Metadata
pub mod Era
pub mod Discovery
pub mod Subscriptions
pub mod Lint
pub mod Rendering

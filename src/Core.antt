-- ===== src/Core.antt =====
-- The portable core, src/mcp_heartbeat/.
pub mod Errors
pub mod Time
pub mod Model
pub mod Validation
pub mod Parse
pub mod Lineage
pub mod Producer
pub mod Ports

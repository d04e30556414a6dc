-- ===== src/Conformance.antt =====
-- The conformance harness's own logic: src/mcp_heartbeat_conformance.
pub mod Verdicts
pub mod Release
pub mod DualEra
pub mod Fleet
pub mod Signoff
pub mod Attestation
pub mod SharedRuns

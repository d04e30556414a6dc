-- ===== src/Legacy/Failures.antt =====
-- src/mcp_heartbeat_legacy/errors.py: why the legacy conversation cannot go on.
use mcp_heartbeat.Prelude.{Result}

pub data JsonRpcCode : Type 0 where
  invalid_request method_not_found invalid_params : JsonRpcCode

pub data LegacyReason : Type 0 where
  session_not_initialized lifecycle_out_of_order negotiation_failed : LegacyReason
  silent_downgrade_refused method_not_implemented malformed_hint : LegacyReason
  heartbeat_not_negotiated : LegacyReason

-- `LegacyProtocolError` and `LegacyEraViolation`; the messages are prose and are left out.
pub data LegacyError : Type 0 where
  protocol_error : LegacyReason → JsonRpcCode → LegacyError
  era_violation : LegacyError

abbrev pub Legacy : Type 0 → Type 0
Legacy A = Result LegacyError A

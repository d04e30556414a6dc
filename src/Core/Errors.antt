-- ===== src/Core/Errors.antt =====
-- src/mcp_heartbeat/errors.py, the messages of validation.py, and the exceptions in between.
use mcp_heartbeat.Prelude.{List, Result, String}
use mcp_heartbeat.Json.{Json}

-- Why a heartbeat is refused: document, lineage and liveness reasons.
pub data ViolationCode : Type 0 where
  schema_invalid unsupported_extension_version invalid_expiry_window : ViolationCode
  expiry_window_too_long node_id_mismatch sequence_rollback sequence_conflict : ViolationCode
  boot_id_reuse clock_skew_exceeded expired_on_arrival : ViolationCode

-- The messages of `validate_document` and of `ChangeHint.from_dict`, by what they interpolate.
pub data Violation : Type 0 where
  not_an_object bad_node_id bad_boot_id bad_sequence negative_sequence : Violation
  empty_window long_window bad_extensions bad_hint_digest : Violation
  missing_field bad_timestamp bare_extension_key bare_member missing_hint_field : String → Violation
  bad_version : Json → Violation

-- `InvalidHeartbeat` and `UnsupportedExtensionVersion`, the subclasses of `HeartbeatError`
pub data HeartbeatError : Type 0 where
  invalid_heartbeat : List Violation → HeartbeatError
  unsupported_version : Json → HeartbeatError

-- the class attribute `code`
unfoldable pub error_code : HeartbeatError → ViolationCode
error_code (invalid_heartbeat vs) = ViolationCode.schema_invalid
error_code (unsupported_version v) = ViolationCode.unsupported_extension_version

pub data Exception : Type 0 where
  value_error overflow_error type_error unicode_encode_error : Exception
  key_error : String → Exception
  heartbeat_error : HeartbeatError → Exception

-- What a call of the core gives: its value, or the exception that it raises.
abbrev pub Raises : Type 0 → Type 0
Raises A = Result Exception A

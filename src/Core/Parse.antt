-- ===== src/Core/Parse.antt =====
-- `Heartbeat.from_dict` of src/mcp_heartbeat/model.py.
pub mod Contract
pub mod Agreement
pub mod Totality
use mcp_heartbeat.Prelude.{
  List, Option, OptionalText, [], if◌then◌else◌, none, ok, raise, some, ◌>>=◌, ◌∷◌,
}
use mcp_heartbeat.Json.{Fields, Json, get, int, is_text, members, null, obj, str}
use mcp_heartbeat.Platform.{Platform}
use mcp_heartbeat.Core.Errors.{
  Raises, Violation, heartbeat_error, invalid_heartbeat, not_an_object, type_error,
  unsupported_version,
}
use mcp_heartbeat.Core.Model.{Heartbeat, extension_version}
use mcp_heartbeat.Core.Time.{parse_rfc3339}
use mcp_heartbeat.Core.Validation.{item, validate_document}
use mcp_heartbeat.Prelude.Int.{ℤ}

-- The dataclass takes any value; after validation a member is a text or null, or an integer or
-- null, and no other case is reached.
abbrev pub as_text : Json → Raises OptionalText
as_text null = ok none
as_text (str s) = ok (some s)
as_text _ = raise type_error

abbrev pub as_int : Json → Raises (Option ℤ)
as_int null = ok none
as_int (int z) = ok (some z)
as_int _ = raise type_error

module _ (p : Platform) where
  unfoldable pub build : Fields → Raises Heartbeat
  build raw = do
    node_id ← item "node_id" raw >>= as_text
    boot_id ← item "boot_id" raw >>= as_text
    sequence ← item "sequence" raw >>= as_int
    issued_at ← item "issued_at" raw >>= parse_rfc3339 p
    expires_at ← item "expires_at" raw >>= parse_rfc3339 p
    ok (record {
      node_id = node_id;
      boot_id = boot_id;
      sequence = sequence;
      issued_at = issued_at;
      expires_at = expires_at;
      version = extension_version;
      extensions = members (get "extensions" raw);
    })

  -- `if violations: raise InvalidHeartbeat(violations)`
  abbrev pub build_valid : Fields → List Violation → Raises Heartbeat
  build_valid raw [] = build raw
  build_valid raw (v ∷ vs) = raise (heartbeat_error (invalid_heartbeat (v ∷ vs)))

  unfoldable pub from_dict : Json → Raises Heartbeat
  from_dict (obj raw) =
      if is_text (get "extension_version" raw) extension_version
      then validate_document p (obj raw) >>= build_valid raw
      else raise (heartbeat_error (unsupported_version (get "extension_version" raw)))
  from_dict _ = raise (heartbeat_error (invalid_heartbeat (not_an_object ∷ [])))

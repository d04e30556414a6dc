-- ===== src/Core/Validation.antt =====
-- src/mcp_heartbeat/validation.py: every violation of a document, and the one reason to refuse it.
use mcp_heartbeat.Prelude.{
  Bool, List, Option, String, [], contains, if◌then◌else◌, leb, ltb, none, not, ok, raise, some, ℕ,
  ◌&&◌, ◌++◌, ◌+◌, ◌==◌, ◌>>=◌, ◌||◌, ◌∷◌,
}
use mcp_heartbeat.Json.{Fields, Json, end, field, get, has, int, is_null, is_text, null, obj, str}
use mcp_heartbeat.Platform.{Instant, Platform}
use mcp_heartbeat.Text.{boot_id_re, codes, has_code, node_id_re}
use mcp_heartbeat.Core.Errors.{
  Raises, Violation, ViolationCode, bad_boot_id, bad_extensions, bad_node_id, bad_sequence,
  bad_timestamp, bad_version, bare_extension_key, bare_member, empty_window, expiry_window_too_long,
  heartbeat_error, invalid_expiry_window, key_error, long_window, missing_field, negative_sequence,
  not_an_object, overflow_error, schema_invalid, type_error, unicode_encode_error,
  unsupported_extension_version, value_error,
}
use mcp_heartbeat.Core.Model.{core_fields, extension_version}
use mcp_heartbeat.Core.Time.{parse_rfc3339}
use mcp_heartbeat.Prelude.Int.{negsuc, pos}

-- `MAX_LEASE_SECONDS`, in microseconds
abbrev pub max_lease : ℕ
max_lease = 3600000000

-- `"." in str(key)`
abbrev pub namespaced : String → Bool
namespaced key = has_code b'.' (codes key)

-- the messages of one test: none if it passes
abbrev pub violation_if : Bool → Violation → List Violation
violation_if b v = if b then v ∷ [] else []

unfoldable pub missing_fields : List String → Fields → List Violation
missing_fields [] raw = []
missing_fields (name ∷ names) raw =
    violation_if (not (has name raw)) (missing_field name) ++ missing_fields names raw

unfoldable pub check_version : Json → List Violation
check_version v =
    violation_if (not (is_null v) && not (is_text v extension_version)) (bad_version v)

unfoldable pub check_node_id : Json → List Violation
check_node_id null = []
check_node_id (str s) = violation_if (not (node_id_re s)) bad_node_id
check_node_id _ = bad_node_id ∷ []

unfoldable pub check_boot_id : Json → List Violation
check_boot_id null = []
check_boot_id (str s) = violation_if (not (boot_id_re s)) bad_boot_id
check_boot_id _ = bad_boot_id ∷ []

unfoldable pub check_sequence : Json → List Violation
check_sequence null = []
check_sequence (int (pos n)) = []
check_sequence (int (negsuc n)) = negative_sequence ∷ []
check_sequence _ = bad_sequence ∷ []

-- The window between two instants that were read.
unfoldable pub check_window : Option Instant → Option Instant → List Violation
check_window (some issued) (some expires) =
    if leb expires issued
    then empty_window ∷ []
    else violation_if (ltb (issued + max_lease) expires) long_window
check_window _ _ = []

unfoldable pub bare_keys : (String → Violation) → Fields → List Violation
bare_keys message end = []
bare_keys message (field k v fs) =
    violation_if (not (namespaced k)) (message k) ++ bare_keys message fs

unfoldable pub check_extensions : Json → List Violation
unfolding bare_keys
check_extensions null = []
check_extensions (obj fs) = bare_keys bare_extension_key fs
check_extensions _ = bad_extensions ∷ []

unfoldable pub unknown_members : Fields → List Violation
unknown_members end = []
unknown_members (field k v fs) =
    violation_if (not (contains k core_fields || k == "extensions") && not (namespaced k))
      (bare_member k)
    ++ unknown_members fs

-- `except (TypeError, ValueError)`
abbrev pub caught : {A : Type 0} → A → Raises A → Raises A
caught a (ok b) = ok b
caught a (raise value_error) = ok a
caught a (raise unicode_encode_error) = ok a
caught a (raise type_error) = ok a
caught a (raise overflow_error) = raise overflow_error
caught a (raise (key_error k)) = raise (key_error k)
caught a (raise (heartbeat_error e)) = raise (heartbeat_error e)

-- `raw[key]`
abbrev pub item : String → Fields → Raises Json
item k raw = if has k raw then ok (get k raw) else raise (key_error k)

module _ (p : Platform) where
  -- one round of the loop over "issued_at" and "expires_at"
  unfoldable pub check_timestamp : String → Json → Raises (List Violation × Option Instant)
  check_timestamp name null = ok ([], none)
  check_timestamp name value =
      caught (bad_timestamp name ∷ [], none) (parse_rfc3339 p value >>= λ t. ok ([], some t))

  unfoldable pub validate_members : Fields → Raises (List Violation)
  validate_members raw = do
    issued ← check_timestamp "issued_at" (get "issued_at" raw)
    expires ← check_timestamp "expires_at" (get "expires_at" raw)
    ok (
        missing_fields core_fields raw
        ++ (check_version (get "extension_version" raw)
            ++ (check_node_id (get "node_id" raw)
                ++ (check_boot_id (get "boot_id" raw)
                    ++ (check_sequence (get "sequence" raw)
                        ++ (issued.0
                            ++ (expires.0
                                ++ (check_window issued.1 expires.1
                                    ++ (check_extensions (get "extensions" raw)
                                        ++ unknown_members raw)))))))))

  unfoldable pub validate_document : Json → Raises (List Violation)
  unfolding validate_members
  validate_document (obj raw) = validate_members raw
  validate_document _ = ok (not_an_object ∷ [])

  -- the code of a window that was read
  abbrev pub window_code : Instant → Instant → Option ViolationCode
  window_code issued expires =
      if leb expires issued
      then some invalid_expiry_window
      else if ltb (issued + max_lease) expires
      then some expiry_window_too_long
      else none

  -- `except (KeyError, TypeError, ValueError): return None`
  abbrev pub no_code : Raises (Option ViolationCode) → Raises (Option ViolationCode)
  no_code (raise (key_error k)) = ok none
  no_code (raise value_error) = ok none
  no_code (raise unicode_encode_error) = ok none
  no_code (raise type_error) = ok none
  no_code (raise overflow_error) = raise overflow_error
  no_code (raise (heartbeat_error e)) = raise (heartbeat_error e)
  no_code (ok code) = ok code

  unfoldable pub expiry_window_violation : Fields → Raises (Option ViolationCode)
  expiry_window_violation raw = no_code (do
    issued ← item "issued_at" raw >>= parse_rfc3339 p
    expires ← item "expires_at" raw >>= parse_rfc3339 p
    ok (window_code issued expires))

  -- the last two lines of `document_reason`
  abbrev pub schema_reason : List Violation → Option ViolationCode
  schema_reason [] = none
  schema_reason (v ∷ vs) = some schema_invalid

  abbrev pub reason_after_window : Fields → Option ViolationCode → Raises (Option ViolationCode)
  reason_after_window raw (some code) = ok (some code)
  reason_after_window raw none = validate_document (obj raw) >>= λ vs. ok (schema_reason vs)

  unfoldable pub document_reason : Json → Raises (Option ViolationCode)
  document_reason (obj raw) =
      if is_text (get "extension_version" raw) extension_version
      then expiry_window_violation raw >>= reason_after_window raw
      else ok (some unsupported_extension_version)
  document_reason _ = ok (some schema_invalid)

-- ===== src/Current/Failures.antt =====
-- src/mcp_heartbeat_current/errors.py with the codes of contract.py: the exceptions of the adapter.
use mcp_heartbeat.Prelude.{Option, Result, String}
use mcp_heartbeat.Json.{Json}
use mcp_heartbeat.Core.Errors.{Exception}
use mcp_heartbeat.Prelude.Int.{negsuc, ℤ}

-- The JSON-RPC codes.
abbrev pub invalid_request : ℤ
invalid_request = negsuc 32599

abbrev pub method_not_found : ℤ
method_not_found = negsuc 32600

abbrev pub invalid_params : ℤ
invalid_params = negsuc 32601

abbrev pub header_mismatch_code : ℤ
header_mismatch_code = negsuc 32019

abbrev pub unsupported_protocol_code : ℤ
unsupported_protocol_code = negsuc 32021

-- The subclasses of `AdapterError`; messages are prose and are left out.
pub data AdapterError : Type 0 where
  malformed_envelope header_mismatch forbidden_primitive : AdapterError
  cross_era identity_unbound subscription_protocol : AdapterError
  unsupported_protocol : Json → AdapterError
  unsupported_extension : Option String → AdapterError

-- the class attribute `code`
unfoldable pub adapter_code : AdapterError → ℤ
adapter_code malformed_envelope = invalid_params
adapter_code header_mismatch = header_mismatch_code
adapter_code (unsupported_protocol v) = unsupported_protocol_code
adapter_code (unsupported_extension v) = method_not_found
adapter_code forbidden_primitive = invalid_request
adapter_code cross_era = invalid_request
adapter_code identity_unbound = invalid_request
adapter_code subscription_protocol = invalid_request

abbrev pub Adapter : Type 0 → Type 0
Adapter A = Result AdapterError A

-- What leaves a function of the adapter: an error of its own, an exception of Python, or one of a
-- library call that the model does not tell apart.
pub data Raised : Type 0 where
  adapter : AdapterError → Raised
  builtin : Exception → Raised
  library : Raised

abbrev pub Call : Type 0 → Type 0
Call A = Result Raised A

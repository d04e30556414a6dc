-- ===== src/Current/Metadata.antt =====
-- src/mcp_heartbeat_current/metadata.py: the envelope of each request, and its three checks.
pub mod Ladder
use mcp_heartbeat.Prelude.{
  Bool, List, Option, String, [], contains, false, if◌then◌else◌, none, not, ok, or_raise, raise,
  raise_if, some, true, ◌==◌, ◌>>=◌, ◌>>◌, ◌∷◌,
}
use mcp_heartbeat.Json.{
  Fields, Json, arr, cons, end, field, get, mapping_in, members, merged, nil, non_empty_text, null,
  obj, set_item, str, truthy,
}
use mcp_heartbeat.Platform.{Platform, show}
use mcp_heartbeat.Core.Errors.{type_error, value_error}
use mcp_heartbeat.Current.Contract.{
  client_capabilities_key, client_info_key, ignored_legacy_headers, method_header, name_header,
  name_param, protocol_version_key, version_header,
}
use mcp_heartbeat.Current.Failures.{
  Call, Raised, adapter, builtin, header_mismatch, library, malformed_envelope,
  unsupported_protocol,
}
use mcp_heartbeat.Legacy.Identity.{named}

-- Names and values, in order.
abbrev pub Headers : Type 0
Headers = List (String × String)

pub record RequestEnvelope : Type 0 where
  pub method : String
  pub params : Fields
  pub protocol_version : String
  pub client_info : Fields
  pub client_capabilities : Fields

unfoldable pub meta : RequestEnvelope → Fields
meta e = field protocol_version_key (str e.protocol_version) (
    field client_info_key (obj e.client_info)
      (field client_capabilities_key (obj e.client_capabilities) end))

pub record ModernRoute : Type 0 where
  pub protocol_version : String
  pub method : String
  pub client_info : Fields
  pub client_capabilities : Fields
  pub ignored_headers : List String

abbrev pub malformed : Raised
malformed = adapter malformed_envelope

abbrev pub mismatch : Raised
mismatch = adapter header_mismatch

-- `header is not None and header != text`
abbrev pub differs : Option String → String → Bool
differs none wanted = false
differs (some h) wanted = not (h == wanted)

abbrev pub is_given : Option String → Bool
is_given none = false
is_given (some h) = true

-- `origin_allowed`
unfoldable pub origin_allowed : Option String → List String → Bool
origin_allowed none allowed = true
origin_allowed (some origin) allowed = contains origin allowed

unfoldable pub response_headers : ModernRoute → Headers
response_headers route = (version_header, route.protocol_version) ∷ []

module _ (p : Platform) where
  -- `_lower_keys(headers).get(name)`: of two names that are equal in lower case the later counts.
  unfoldable pub header : String → Headers → Option String
  header name [] = none
  header name ((k, v) ∷ rest) = elim (header name rest) [
    | some w ↦ some w
    | none ↦ if p.lower k == name then some v else none
  ]

  unfoldable pub http_method_allowed : String → Bool
  http_method_allowed method = p.upper method == "POST"

  -- `headers[MCP_NAME_HEADER] = str(value)`, for the parameter that the method names
  abbrev pub name_headers : Json → Call Headers
  name_headers null = raise malformed
  name_headers value = ok ((name_header, show p value) ∷ [])

  abbrev pub named_headers : Option String → Fields → Call Headers
  named_headers none params = ok []
  named_headers (some name) params = name_headers (get name params)

  unfoldable pub headers_of : RequestEnvelope → Call Headers
  headers_of e = do
    named ← named_headers (name_param e.method) e.params
    ok ((version_header, e.protocol_version) ∷ (method_header, e.method) ∷ named)

  -- `dict(value or {})`
  abbrev pub as_dict : Json → Call Fields
  as_dict (obj fs) = ok fs
  as_dict (arr nil) = ok end
  as_dict (arr (cons x xs)) = or_raise (p.dict_of (cons x xs)) library
  as_dict (str s) = if s == "" then ok end else raise (builtin value_error)
  as_dict v = if truthy v then raise (builtin type_error) else ok end

  unfoldable pub body_of : RequestEnvelope → Json → Call Fields
  unfolding meta
  body_of e request_id = do
    old ← as_dict (get "_meta" e.params)
    ok (
        field "jsonrpc" (str "2.0") (
          field "id" request_id (
            field "method" (str e.method)
              (field "params" (obj (set_item "_meta" (obj (merged old (meta e))) e.params)) end))))

  -- `build_request`
  unfoldable pub build_request : RequestEnvelope → Json → Call (Fields × Headers)
  unfolding body_of headers_of
  build_request e request_id = do
    body ← body_of e request_id
    headers ← headers_of e
    ok (body, headers)

  -- The name that the header gives is not the one of the parameter.
  abbrev pub name_differs : Option String → Json → Bool
  name_differs none value = false
  name_differs (some h) null = false
  name_differs (some h) value = not (h == show p value)

  abbrev pub name_mismatch : Option String → Headers → Fields → Bool
  name_mismatch none headers params = false
  name_mismatch (some name) headers params =
      name_differs (header name_header headers) (get name params)

  -- the headers in `IGNORED_LEGACY_HEADERS` that are there
  abbrev pub present_headers : List String → Headers → List String
  present_headers [] headers = []
  present_headers (h ∷ hs) headers =
      let rest = present_headers hs headers in
      if is_given (header h headers) then h ∷ rest else rest

  -- the second and the third rung
  abbrev pub check_headers : String → String → Fields → Headers → List String → Call (Unit {0})
  check_headers method version params headers spoken =
      raise_if (differs (header version_header headers) version) mismatch
      >> (raise_if (differs (header method_header headers) method) mismatch
          >> (raise_if (name_mismatch (name_param method) headers params) mismatch
              >> raise_if (not (contains version spoken))
                  (adapter (unsupported_protocol (str version)))))

  unfoldable pub classify_request : Fields → Headers → List String → Call ModernRoute
  unfolding header
  classify_request body headers spoken = do
    method ← or_raise (non_empty_text (get "method" body)) malformed
    let params = members (get "params" body)
    found ← or_raise (mapping_in (get "_meta" params)) malformed
    version ← or_raise (non_empty_text (get protocol_version_key found)) malformed
    capabilities ← or_raise (mapping_in (get client_capabilities_key found)) malformed
    rungs ← check_headers method version params headers spoken
    ok (record {
      protocol_version = version;
      method = method;
      client_info = members (get client_info_key found);
      client_capabilities = capabilities;
      ignored_headers = present_headers ignored_legacy_headers headers;
    })

-- ===== src/Current/Contract.antt =====
-- src/mcp_heartbeat_current/contract.py: the names of the MCP 2026-07-28 wire.
use mcp_heartbeat.Prelude.{
  Bool, List, Option, String, [], contains, if◌then◌else◌, none, some, ◌==◌, ◌∷◌,
}
use mcp_heartbeat.Json.{Items, Json, arr, has_text}

abbrev pub protocol_revision : String
protocol_revision = "2026-07-28"

abbrev pub modern_versions : List String
modern_versions = "2026-07-28" ∷ []

abbrev pub handshake_versions : List String
handshake_versions = "2024-11-05" ∷ "2025-03-26" ∷ "2025-06-18" ∷ "2025-11-25" ∷ []

abbrev pub heartbeat_extension : String
heartbeat_extension = "com.dougfirlabs/heartbeat"

abbrev pub protocol_version_key : String
protocol_version_key = "io.modelcontextprotocol/protocolVersion"

abbrev pub client_info_key : String
client_info_key = "io.modelcontextprotocol/clientInfo"

abbrev pub client_capabilities_key : String
client_capabilities_key = "io.modelcontextprotocol/clientCapabilities"

abbrev pub subscription_id_key : String
subscription_id_key = "io.modelcontextprotocol/subscriptionId"

abbrev pub version_header : String
version_header = "mcp-protocol-version"

abbrev pub method_header : String
method_header = "mcp-method"

abbrev pub name_header : String
name_header = "mcp-name"

-- `NAME_BEARING_METHODS.get(method)`
abbrev pub name_param : String → Option String
name_param method =
    if method == "tools/call"
    then some "name"
    else if method == "prompts/get"
    then some "name"
    else if method == "resources/read"
    then some "uri"
    else none

abbrev pub listen_method : String
listen_method = "subscriptions/listen"

abbrev pub discover_method : String
discover_method = "server/discover"

abbrev pub read_resource_method : String
read_resource_method = "resources/read"

abbrev pub acknowledged_notification : String
acknowledged_notification = "notifications/subscriptions/acknowledged"

abbrev pub updated_notification : String
updated_notification = "notifications/resources/updated"

abbrev pub handshake_methods : List String
handshake_methods = "initialize" ∷ "notifications/initialized" ∷ []

abbrev pub ignored_legacy_headers : List String
ignored_legacy_headers = "mcp-session-id" ∷ "last-event-id" ∷ []

abbrev pub tools_changed : String
tools_changed = "notifications/tools/list_changed"

abbrev pub prompts_changed : String
prompts_changed = "notifications/prompts/list_changed"

abbrev pub resources_changed : String
resources_changed = "notifications/resources/list_changed"

abbrev pub listen_stream_methods : List String
listen_stream_methods =
    tools_changed ∷ prompts_changed ∷ resources_changed ∷ updated_notification ∷ []

unfoldable pub is_modern : String → Bool
is_modern version = contains version modern_versions

unfoldable pub is_handshake : String → Bool
is_handshake version = contains version handshake_versions

-- `mutual[-1] if mutual else None`, over the versions that are offered too
abbrev pub last_offered : List String → Items → Option String
last_offered [] offered = none
last_offered (v ∷ vs) offered = elim (last_offered vs offered) [
  | some w ↦ some w
  | none ↦ if has_text v offered then some v else none
]

unfoldable pub highest_mutual_version : Json → Option String
highest_mutual_version (arr offered) = last_offered modern_versions offered
highest_mutual_version _ = none

-- ===== src/Current/Discovery.antt =====
-- src/mcp_heartbeat_current/discovery.py: `server/discover` and the negotiation of the extension.
pub mod Offers
use mcp_heartbeat.Prelude.{
  Bool, List, Option, String, false, if◌then◌else◌, none, ok, or_raise, raise, some, true, ◌&&◌,
  ◌==◌, ◌>>=◌, ◌||◌,
}
use mcp_heartbeat.Json.{
  Fields, Json, arr, bool, cons, end, field, float, get, has, int, members, nil, null, obj,
  optional_text, set_item, str, truthy,
}
use mcp_heartbeat.Platform.{Platform, show}
use mcp_heartbeat.Core.Errors.{type_error}
use mcp_heartbeat.Core.Model.{extension_version}
use mcp_heartbeat.Core.Validation.{max_lease}
use mcp_heartbeat.Current.Contract.{
  discover_method, heartbeat_extension, highest_mutual_version, modern_versions, protocol_revision,
  read_resource_method,
}
use mcp_heartbeat.Current.Failures.{
  Call, adapter, builtin, library, unsupported_extension, unsupported_protocol,
}
use mcp_heartbeat.Current.Metadata.{Headers, RequestEnvelope, as_dict, build_request}
use mcp_heartbeat.Legacy.Negotiation.{supported_versions}
use mcp_heartbeat.Legacy.Session.{server_info}
use mcp_heartbeat.Legacy.Session.ClientSide.{client_capabilities}

abbrev pub default_uri_template : String
default_uri_template = "heartbeat://participants/{participant_id}"

-- The lease bound is a float, known by its `repr`.
pub record HeartbeatCapability : Type 0 where
  pub extension_version : String
  pub resource_uri_template : String
  pub max_lease_seconds : String
  pub change_hints : Bool
  pub identity_binding : Bool

-- `HeartbeatCapability()`
abbrev pub default_capability : HeartbeatCapability
default_capability = record {
  extension_version = extension_version;
  resource_uri_template = default_uri_template;
  max_lease_seconds = "300.0";
  change_hints = true;
  identity_binding = true;
}

unfoldable pub capability_to_dict : HeartbeatCapability → Fields
capability_to_dict c = field "extension_version" (str c.extension_version) (
    field "resource_uri_template" (str c.resource_uri_template) (
      field "max_lease_seconds" (float c.max_lease_seconds) (
        field "change_hints" (bool c.change_hints)
          (field "identity_binding" (bool c.identity_binding) end))))

-- `raw.get(key, default)`
abbrev pub get_or : String → Json → Fields → Json
get_or k default raw = if has k raw then get k raw else default

pub record Negotiation : Type 0 where
  pub protocol_revision : String
  pub supported_versions : List String
  pub heartbeat_enabled : Bool
  pub extension_version : Option String
  pub capability : Option HeartbeatCapability
  pub other_capabilities : Fields
  pub disabled_reason : Option String

-- `{k: v for k, v in fields.items() if k != key}`
abbrev pub without : String → Fields → Fields
without key end = end
without key (field k v fs) = if k == key then without key fs else field k v (without key fs)

unfoldable pub serves_change_hints : Negotiation → Bool
serves_change_hints n =
    n.heartbeat_enabled && (elim n.capability [ none ↦ false | some c ↦ c.change_hints ])

-- the members of other capabilities but for two, copied to a target
abbrev pub copied : Fields → Fields → Fields
copied target end = target
copied target (field k v fs) =
    copied (if k == "extensions" || k == "resources" then target else set_item k v target) fs

-- `{**extensions, …}` without the heartbeat, and the rest of the capabilities
abbrev pub other_capabilities_of : Fields → Fields
other_capabilities_of capabilities =
    set_item "extensions"
      (obj (without heartbeat_extension (members (get "extensions" capabilities))))
      (without "extensions" capabilities)

module _ (p : Platform) where
  -- `dict(value)`
  abbrev pub dict_in : Json → Call Fields
  dict_in null = raise (builtin type_error)
  dict_in (bool b) = raise (builtin type_error)
  dict_in (int z) = raise (builtin type_error)
  dict_in (float r) = raise (builtin type_error)
  dict_in v = as_dict p v

  -- The answer to `server/discover`. `instructions` is a text or None.
  module _ (server_info : Fields) (capability : Option HeartbeatCapability) (others : Fields)
      (instructions : Option String) (serves_listen : Bool) where
    abbrev pub capability_given : HeartbeatCapability
    capability_given = elim capability [ none ↦ default_capability | some c ↦ c ]

    abbrev pub extensions_given : Call Fields
    extensions_given = if has "extensions" others then dict_in (get "extensions" others) else ok end

    unfoldable pub discover_capabilities : Fields → Fields
    unfolding capability_to_dict
    discover_capabilities extensions =
        copied
          (field "resources"
            (obj (
              field "subscribe" (bool serves_listen)
                (field "listChanged" (bool serves_listen) end)))
            (field "extensions"
              (obj (
                set_item heartbeat_extension (obj (capability_to_dict capability_given))
                  extensions))
              end))
          others

    unfoldable pub build_discover_result : Call Fields
    unfolding discover_capabilities
    build_discover_result = do
      extensions ← extensions_given
      ok (
          field "supportedVersions" (arr (cons (str protocol_revision) nil)) (
            field "capabilities" (obj (discover_capabilities extensions)) (
              field "serverInfo" (obj server_info) (
                field "instructions" (optional_text instructions)
                  (field "resultType" (str "complete") end)))))

  -- `float(…)`
  abbrev pub float_in : Json → Call String
  float_in v = or_raise (p.to_float v) library

  -- `from_dict`, once the lease bound was read
  abbrev pub capability_of : Fields → String → HeartbeatCapability
  capability_of raw max_lease = record {
    extension_version = show p (get_or "extension_version" (str "") raw);
    resource_uri_template = show p (get_or "resource_uri_template" (str default_uri_template) raw);
    max_lease_seconds = max_lease;
    change_hints = truthy (get "change_hints" raw);
    identity_binding = truthy (get "identity_binding" raw);
  }

  unfoldable pub capability_from_dict : Fields → Call HeartbeatCapability
  capability_from_dict raw = do
    max_lease ← float_in (get_or "max_lease_seconds" (float "300.0") raw)
    ok (capability_of raw max_lease)

  -- `resource_uri`
  unfoldable pub resource_uri : HeartbeatCapability → String → Call String
  resource_uri c participant =
      or_raise (p.format_participant c.resource_uri_template (p.quote participant)) library

  unfoldable pub participant_from_uri_segment : String → String
  participant_from_uri_segment segment = p.unquote segment

  module _ (wanted : String) (strict : Bool) where
    abbrev pub disabled : String → Fields → String → Option String → Negotiation
    disabled agreed others reason version = record {
      protocol_revision = agreed;
      supported_versions = modern_versions;
      heartbeat_enabled = false;
      extension_version = version;
      capability = none;
      other_capabilities = others;
      disabled_reason = some reason;
    }

    -- `refuse`
    abbrev pub refuse : String → Fields → String → Option String → Call Negotiation
    refuse agreed others reason version =
        if strict
        then raise (adapter (unsupported_extension version))
        else ok (disabled agreed others reason version)

    abbrev pub enabled : String → Fields → HeartbeatCapability → Negotiation
    enabled agreed others c = record {
      protocol_revision = agreed;
      supported_versions = modern_versions;
      heartbeat_enabled = true;
      extension_version = some c.extension_version;
      capability = some c;
      other_capabilities = others;
      disabled_reason = none;
    }

    abbrev pub judge_capability : String → Fields → HeartbeatCapability → Call Negotiation
    judge_capability agreed others c =
        if c.extension_version == wanted
        then ok (enabled agreed others c)
        else refuse agreed others "unsupported_extension_version" (some c.extension_version)

    abbrev pub negotiate_extension : String → Fields → Json → Call Negotiation
    negotiate_extension agreed others (obj raw) =
        capability_from_dict raw >>= judge_capability agreed others
    negotiate_extension agreed others v = refuse agreed others "extension_absent" none

    unfoldable pub negotiate : Fields → Call Negotiation
    unfolding highest_mutual_version capability_from_dict
    negotiate result = elim (highest_mutual_version (get "supportedVersions" result)) [
      | none ↦ raise (adapter (unsupported_protocol (get "supportedVersions" result)))
      | some agreed ↦
          let capabilities = members (get "capabilities" result) in
          negotiate_extension agreed (other_capabilities_of capabilities)
            (get heartbeat_extension (members (get "extensions" capabilities)))
    ]

  -- the request that `build_read_request` and its like make
  abbrev pub request_of_method : String → Fields → String → Fields → Fields → RequestEnvelope
  request_of_method method params agreed info capabilities = record {
    method = method;
    params = params;
    protocol_version = agreed;
    client_info = info;
    client_capabilities = capabilities;
  }

  unfoldable pub build_discover_request : Json → String → Fields → Fields → Call (Fields × Headers)
  build_discover_request request_id agreed info capabilities =
      build_request p (request_of_method discover_method end agreed info capabilities) request_id

  abbrev pub read_capability : Negotiation → Call HeartbeatCapability
  read_capability n =
      if n.heartbeat_enabled
      then or_raise n.capability (adapter (unsupported_extension n.extension_version))
      else raise (adapter (unsupported_extension n.extension_version))

  unfoldable pub build_read_request :
      String → Negotiation → Json → Fields → Fields → Call (Fields × Headers)
  unfolding resource_uri
  build_read_request participant n request_id info capabilities = do
    c ← read_capability n
    uri ← resource_uri c participant
    build_request p
        (request_of_method read_resource_method (field "uri" (str uri) end) n.protocol_revision info
          capabilities)
        request_id

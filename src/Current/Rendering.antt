-- ===== src/Current/Rendering.antt =====
-- The `to_dict` methods of identity.py, era.py and discovery.py: what is put into logs and reports.
use mathlib.Core.List.{List}
use mcp_heartbeat.Prelude.{Option, OptionalText, String, [], if◌then◌else◌, none, some, ◌∷◌}
use mcp_heartbeat.Json.{
  Fields, Items, arr, bool, cons, end, field, keys, nil, null, optional_text, str,
}
use mcp_heartbeat.Text.{codes}
use mcp_heartbeat.Core.Model.{IdentityBinding, bound, unbound, unverified}
use mcp_heartbeat.Current.Contract.{heartbeat_extension}
use mcp_heartbeat.Current.Discovery.{HeartbeatCapability, Negotiation}
use mcp_heartbeat.Current.Era.{Era, EraRoute, current_era, handshake_era}
use mcp_heartbeat.Current.Identity.{ResponseBinding, authoritative}
use mcp_heartbeat.Current.Metadata.{ModernRoute}
use mcp_heartbeat.Tools.Order.{sort_by}

-- `IdentityBinding.value` and `Era.value`
abbrev pub binding_value : IdentityBinding → String
binding_value bound = "bound"
binding_value unbound = "unbound"
binding_value unverified = "unverified"

abbrev pub era_value : Era → String
era_value current_era = "current"
era_value handshake_era = "handshake"

-- a list of texts
abbrev pub text_array : List String → Items
text_array [] = nil
text_array (s ∷ ss) = cons (str s) (text_array ss)

-- `ResponseBinding.to_dict`
unfoldable pub binding_to_dict : ResponseBinding → Fields
unfolding authoritative
binding_to_dict b = field "identity_binding" (str (binding_value b.binding)) (
    field "participant_id" (str b.participant_id) (
      field "principal_fingerprint" (optional_text b.principal_fingerprint) (
        field "authoritative" (bool (authoritative b))
          (field "reason" (optional_text b.reason) end))))

abbrev pub ignored_by : Option ModernRoute → List String
ignored_by none = []
ignored_by (some m) = m.ignored_headers

-- `EraRoute.to_dict`
abbrev pub era_route_to_dict : EraRoute → Fields
era_route_to_dict r = field "era" (str (era_value r.era)) (
    field "method" (str r.method) (
      field "protocol_version" (optional_text r.protocol_version) (
        field "evidence" (arr (text_array r.evidence))
          (field "ignored_headers" (arr (text_array (ignored_by r.modern))) end))))

-- `Negotiation.resource_uri_template`
abbrev pub template_of : Option HeartbeatCapability → OptionalText
template_of none = none
template_of (some c) = some c.resource_uri_template

-- `Negotiation.to_dict`
abbrev pub negotiation_to_dict : Negotiation → Fields
negotiation_to_dict n = field "protocol_revision" (str n.protocol_revision) (
    field "supported_versions" (arr (text_array n.supported_versions)) (
      field "heartbeat_enabled" (bool n.heartbeat_enabled) (
        field "extension_version" (optional_text n.extension_version) (
          field "extension_id" (if n.heartbeat_enabled then str heartbeat_extension else null) (
            field "disabled_reason" (optional_text n.disabled_reason) (
              field "other_capabilities"
                (arr (text_array (sort_by codes (keys n.other_capabilities)))) end))))))

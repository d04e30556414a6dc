-- ===== src/Legacy/Rendering.antt =====
-- The `to_dict` methods of the legacy era.py and identity.py.
use mcp_heartbeat.Prelude.{String}
use mcp_heartbeat.Json.{Fields, bool, end, field, optional_text, str}
use mcp_heartbeat.Platform.{Platform, show}
use mcp_heartbeat.Current.Rendering.{binding_value}
use mcp_heartbeat.Legacy.Identity.{Evidence}
use mcp_heartbeat.Legacy.Negotiation.{
  unsupported_extension, EraReport, NegotiationCode, NegotiationOutcome, ProtocolNegotiation,
  capability_absent, capability_accepted, capability_ambiguous, capability_malformed,
  modern_era_refused, outcome_accepted, outcome_ambiguous, outcome_unsupported, supported_version,
  unsupported_protocol_version, version_malformed, version_missing,
}

abbrev pub outcome_value : NegotiationOutcome → String
outcome_value outcome_accepted = "accepted"
outcome_value outcome_unsupported = "unsupported"
outcome_value outcome_ambiguous = "ambiguous"

abbrev pub code_value : NegotiationCode → String
code_value supported_version = "supported_version"
code_value unsupported_protocol_version = "unsupported_version"
code_value modern_era_refused = "modern_era_refused"
code_value version_missing = "version_missing"
code_value version_malformed = "version_malformed"
code_value capability_accepted = "capability_accepted"
code_value capability_absent = "capability_absent"
code_value capability_malformed = "capability_malformed"
code_value capability_ambiguous = "capability_ambiguous"
code_value unsupported_extension = "unsupported_extension_version"

-- `ProtocolNegotiation.to_dict`
abbrev pub protocol_to_dict : Platform → ProtocolNegotiation → Fields
protocol_to_dict p n = field "outcome" (str (outcome_value n.outcome)) (
    field "code" (str (code_value n.code)) (
      field "requested" (str (show p n.requested))
        (field "negotiated" (optional_text n.negotiated) (field "detail" (str n.detail) end))))

-- `EraReport.to_dict`
abbrev pub report_to_dict : EraReport → Fields
report_to_dict r = field "mcp_protocol_era" (optional_text r.mcp_protocol_era) (
    field "extension_version" (optional_text r.extension_version)
      (field "heartbeat_supported" (bool r.heartbeat_supported) end))

-- `IdentityBindingEvidence.to_dict`
unfoldable pub evidence_to_dict : Evidence → Fields
evidence_to_dict e = field "identity_binding" (str (binding_value e.binding)) (
    field "participant_id" (optional_text e.participant_id) (
      field "principal" (optional_text e.principal) (
        field "context_source" (str e.context_source)
          (field "detail" (str e.detail) (field "reason" (optional_text e.reason) end)))))

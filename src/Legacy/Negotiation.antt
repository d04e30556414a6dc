-- ===== src/Legacy/Negotiation.antt =====
-- src/mcp_heartbeat_legacy/era.py: the protocol version and the heartbeat extension, negotiated apart.
use Prim.Native.String.{◌++◌ as append}
use mcp_heartbeat.Prelude.{
  Bool, List, Option, String, [], contains, false, if◌then◌else◌, none, not, ok, raise, some, true,
  ◌==◌, ◌∷◌,
}
use mcp_heartbeat.Json.{
  Fields, Json, end, get, is_mapping, is_null, is_text, members, null, obj, str,
}
use mcp_heartbeat.Platform.{Platform}
use mcp_heartbeat.Core.Model.{extension_version}
use mcp_heartbeat.Legacy.Failures.{Legacy, era_violation}

abbrev pub legacy_era : String
legacy_era = "2025-06-18"

abbrev pub supported_versions : List String
supported_versions = "2025-06-18" ∷ "2025-03-26" ∷ []

abbrev pub modern_era : String
modern_era = "2026-07-28"

abbrev pub heartbeat_namespace : String
heartbeat_namespace = "experimental"

abbrev pub heartbeat_capability : String
heartbeat_capability = "presenceLease"

abbrev pub modern_extension_id : String
modern_extension_id = "com.dougfirlabs/heartbeat"

pub data NegotiationOutcome : Type 0 where
  outcome_accepted outcome_unsupported outcome_ambiguous : NegotiationOutcome

pub data NegotiationCode : Type 0 where
  supported_version unsupported_protocol_version modern_era_refused version_missing :
      NegotiationCode
  version_malformed capability_accepted capability_absent capability_malformed : NegotiationCode
  capability_ambiguous unsupported_extension : NegotiationCode

pub record ProtocolNegotiation : Type 0 where
  pub outcome : NegotiationOutcome
  pub code : NegotiationCode
  pub requested : Json
  pub negotiated : Option String
  pub detail : String

abbrev pub is_accepted : NegotiationOutcome → Bool
is_accepted outcome_accepted = true
is_accepted _ = false

-- the properties `accepted` and `disagreement`
unfoldable pub protocol_accepted : ProtocolNegotiation → Bool
protocol_accepted n = is_accepted n.outcome

unfoldable pub disagreement : ProtocolNegotiation → Bool
unfolding protocol_accepted
disagreement n = not (protocol_accepted n)

pub record HeartbeatNegotiation : Type 0 where
  pub outcome : NegotiationOutcome
  pub code : NegotiationCode
  pub extension_version : Option String
  pub detail : String

-- the property `supported`
unfoldable pub supported : HeartbeatNegotiation → Bool
supported n = is_accepted n.outcome

pub record EraReport : Type 0 where
  pub mcp_protocol_era : Option String
  pub extension_version : Option String
  pub heartbeat_supported : Bool

abbrev pub unnegotiated : EraReport
unnegotiated = record {
  mcp_protocol_era = none;
  extension_version = none;
  heartbeat_supported = false;
}

abbrev refused_version : NegotiationOutcome → NegotiationCode → Json → String → ProtocolNegotiation
refused_version o c r d = record {
  outcome = o;
  code = c;
  requested = r;
  negotiated = none;
  detail = d;
}

abbrev refused_heartbeat : NegotiationOutcome → NegotiationCode → String → HeartbeatNegotiation
refused_heartbeat o c d = record { outcome = o; code = c; extension_version = none; detail = d }

module _ (p : Platform) where
  -- A text that is not empty.
  abbrev negotiate_text : String → ProtocolNegotiation
  negotiate_text s =
      if s == modern_era
      then refused_version outcome_unsupported modern_era_refused (str s)
          "2026-07-28 is served by the current adapter, not the legacy one"
      else if not (contains s supported_versions)
      then refused_version outcome_unsupported unsupported_protocol_version (str s) (
          append "unsupported protocolVersion "
            (append (p.repr (str s)) "; supported: 2025-06-18, 2025-03-26"))
      else record {
        outcome = outcome_accepted;
        code = supported_version;
        requested = str s;
        negotiated = some s;
        detail = "negotiated the revision the peer requested";
      }

  unfoldable pub negotiate_protocol : Json → ProtocolNegotiation
  negotiate_protocol null =
      refused_version outcome_ambiguous version_missing null
        "initialize carried no protocolVersion; the legacy contract requires one"
  negotiate_protocol (str s) =
      if s == ""
      then refused_version outcome_ambiguous version_malformed (str s)
          "protocolVersion must be a non-empty string"
      else negotiate_text s
  negotiate_protocol v =
      refused_version outcome_ambiguous version_malformed v
        "protocolVersion must be a non-empty string"

  -- the version that a readable claim declares
  abbrev negotiate_version : Json → HeartbeatNegotiation
  negotiate_version declared =
      if is_null declared
      then refused_heartbeat outcome_ambiguous capability_malformed
          "heartbeat capability declares no extension_version"
      else if not (is_text declared extension_version)
      then refused_heartbeat outcome_unsupported unsupported_extension (
          append "extension_version "
            (append (p.repr declared) " is not readable by this build (supported: 0.1)"))
      else record {
        outcome = outcome_accepted;
        code = capability_accepted;
        extension_version = some extension_version;
        detail = "heartbeat extension negotiated on a legacy session";
      }

  -- the legacy and the modern claim of a peer
  abbrev negotiate_claims : Json → Json → HeartbeatNegotiation
  negotiate_claims null modern =
      if is_null modern
      then refused_heartbeat outcome_unsupported capability_absent
          "peer advertises no heartbeat capability; ordinary MCP continues"
      else refused_heartbeat outcome_unsupported modern_era_refused
          "com.dougfirlabs/heartbeat is a modern-era identifier; the legacy adapter does not serve it"
  negotiate_claims legacy modern =
      if not (is_null modern)
      then refused_heartbeat outcome_ambiguous capability_ambiguous
          "peer advertises both the legacy and the modern heartbeat identifier; a legacy session cannot also claim current MCP semantics"
      else if not (is_mapping legacy)
      then refused_heartbeat outcome_ambiguous capability_malformed
          "experimental.presenceLease must be an object"
      else negotiate_version (get "extension_version" (members legacy))

  -- `members` reads what is no object as an empty one, as the source does for both claims.
  abbrev negotiate_members : Fields → HeartbeatNegotiation
  negotiate_members capabilities =
      negotiate_claims (get heartbeat_capability (members (get heartbeat_namespace capabilities)))
        (get modern_extension_id (members (get "extensions" capabilities)))

  unfoldable pub negotiate_heartbeat : Json → HeartbeatNegotiation
  negotiate_heartbeat null = negotiate_members end
  negotiate_heartbeat (obj capabilities) = negotiate_members capabilities
  negotiate_heartbeat _ =
      refused_heartbeat outcome_ambiguous capability_malformed "capabilities must be an object"

unfoldable pub assert_legacy_era : String → Legacy String
assert_legacy_era era =
    if era == modern_era
    then raise era_violation
    else if contains era supported_versions
    then ok era
    else raise era_violation

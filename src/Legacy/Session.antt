-- ===== src/Legacy/Session.antt =====
-- src/mcp_heartbeat_legacy/session.py: the states of the lifecycle and its server half.
pub mod ClientSide
pub mod Lifecycle
pub mod Agreement
use Prim.Native.String.{◌++◌ as append}
use mcp_heartbeat.Prelude.{
  Bool, List, Option, String, [], contains, false, if◌then◌else◌, none, not, ok, raise, some, true,
  ◌&&◌, ◌++◌, ◌==◌, ◌>>=◌, ◌∷◌,
}
use mcp_heartbeat.Json.{Fields, Json, end, field, get, null, obj, optional_text, str}
use mcp_heartbeat.Platform.{Platform}
use mcp_heartbeat.Core.Model.{extension_version}
use mcp_heartbeat.Legacy.Capabilities.{advertise, read_method}
use mcp_heartbeat.Legacy.Failures.{
  Legacy, invalid_params, invalid_request, lifecycle_out_of_order, method_not_found,
  method_not_implemented, negotiation_failed, protocol_error, session_not_initialized,
}
use mcp_heartbeat.Legacy.Negotiation.{
  EraReport, HeartbeatNegotiation, NegotiationCode, ProtocolNegotiation, assert_legacy_era,
  capability_absent, disagreement, is_accepted, negotiate_heartbeat, negotiate_protocol,
  outcome_unsupported, protocol_accepted, supported, unnegotiated,
}

abbrev pub initialize : String
initialize = "initialize"

abbrev pub initialized : String
initialized = "notifications/initialized"

pub data SessionState : Type 0 where
  created initializing ready failed : SessionState

abbrev pub not_offered : String → HeartbeatNegotiation
not_offered detail = record {
  outcome = outcome_unsupported;
  code = capability_absent;
  extension_version = none;
  detail = detail;
}

-- A recorded disagreement on the protocol version.
pub record Disagreement : Type 0 where
  pub requested : Json
  pub code : NegotiationCode
  pub detail : String

-- A method of the registry. What it does is the deployment's.
abbrev pub Handler : Type 0
Handler = Fields → Legacy Json

-- `LegacyServerSession`
pub record Server : Type 0 where
  pub server_name : String
  pub methods : List (String × Handler)
  pub implemented : List String
  pub state : SessionState
  pub disagreements : List Disagreement
  pub protocol : Option ProtocolNegotiation
  pub heartbeat : Option HeartbeatNegotiation

abbrev pub find_handler : String → List (String × Handler) → Option Handler
find_handler m [] = none
find_handler m ((name, h) ∷ rest) = if m == name then some h else find_handler m rest

-- `set(implemented) | set(methods)`
abbrev pub served_names : List String → List (String × Handler) → List String
served_names implemented [] = implemented
served_names implemented ((name, h) ∷ rest) = name ∷ served_names implemented rest

unfoldable pub new_server : String → List (String × Handler) → List String → String → Legacy Server
new_server name methods implemented era = do
  era' ← assert_legacy_era era
  ok (record {
    server_name = name;
    methods = methods;
    implemented = served_names implemented methods;
    state = created;
    disagreements = [];
    protocol = none;
    heartbeat = none;
  })

-- the heartbeat half of an `EraReport`
abbrev pub heartbeat_report : Option String → Option HeartbeatNegotiation → EraReport
heartbeat_report era none = record {
  mcp_protocol_era = era;
  extension_version = none;
  heartbeat_supported = false;
}
heartbeat_report era (some n) = record {
  mcp_protocol_era = era;
  extension_version = n.extension_version;
  heartbeat_supported = supported n;
}

unfoldable pub server_report : Server → EraReport
unfolding protocol_accepted supported
server_report s = elim s.protocol [
  | none ↦ unnegotiated
  | some n ↦ if protocol_accepted n then heartbeat_report n.negotiated s.heartbeat else unnegotiated
]

abbrev pub is_ready : SessionState → Bool
is_ready ready = true
is_ready _ = false

unfoldable pub server_heartbeat_ready : Server → Bool
unfolding server_report
server_heartbeat_ready s = is_ready s.state && (server_report s).heartbeat_supported

-- `LegacyReason.METHOD_NOT_IMPLEMENTED`
abbrev pub unimplemented : {A : Type 0} → Legacy A
unimplemented = raise (protocol_error method_not_implemented method_not_found)

abbrev pub out_of_order : {A : Type 0} → Legacy A
out_of_order = raise (protocol_error lifecycle_out_of_order invalid_request)

abbrev pub server_info : String → Json
server_info name = obj (field "name" (str name) (field "version" (str "0.1.0") end))

-- The answer to `initialize`, with `instructions` where the heartbeat extension is not in effect.
abbrev pub initialize_result : Server → Option String → HeartbeatNegotiation → Fields
initialize_result s era heartbeat = field "protocolVersion" (optional_text era) (
    field "capabilities" (obj (advertise s.implemented)) (
      field "serverInfo" (server_info s.server_name) (
        if is_accepted heartbeat.outcome
        then end
        else field "instructions"
            (str (append "heartbeat extension not negotiated: " heartbeat.detail)) end)))

module _ (p : Platform) where
  -- The extension is in effect only if this side can serve it too.
  abbrev pub bilateral : List String → HeartbeatNegotiation → HeartbeatNegotiation
  bilateral served n =
      if supported n && not (contains read_method served)
      then not_offered "this server serves no resources/read and cannot carry a heartbeat lease"
      else n

  abbrev pub note_disagreement : ProtocolNegotiation → List Disagreement → List Disagreement
  note_disagreement n ds =
      if disagreement n
      then ds ++ record { requested = n.requested; code = n.code; detail = n.detail } ∷ []
      else ds

  -- `_handle_initialize`, once the version was negotiated
  abbrev pub initialize_with : Server → Fields → ProtocolNegotiation → Legacy Json × Server
  initialize_with s params n =
      let ds = note_disagreement n s.disagreements in
      if not (protocol_accepted n)
      then (
        raise (protocol_error negotiation_failed invalid_params),
        record s { state = failed; disagreements = ds; protocol = some n },
      )
      else let h = bilateral s.implemented (negotiate_heartbeat p (get "capabilities" params)) in
        (
          ok (obj (initialize_result s n.negotiated h)),
          record s {
            state = initializing;
            disagreements = ds;
            protocol = some n;
            heartbeat = some h;
          },
        )

  unfoldable pub handle_initialize : Server → Fields → Legacy Json × Server
  unfolding disagreement supported protocol_accepted
  handle_initialize s params = elim s.state [
    | created ↦ initialize_with s params (negotiate_protocol p (get "protocolVersion" params))
    | _ ↦ (out_of_order, s)
  ]

  unfoldable pub handle_initialized : Server → Legacy Json × Server
  handle_initialized s = elim s.state [
    | initializing ↦ (ok null, record s { state = ready })
    | _ ↦ (out_of_order, s)
  ]

  abbrev pub call : Option Handler → Fields → Legacy Json
  call none params = unimplemented
  call (some h) params = h params

  unfoldable pub dispatch : Server → String → Fields → Legacy Json
  dispatch s method params =
      if not (is_ready s.state)
      then raise (protocol_error session_not_initialized invalid_request)
      else if not (contains method s.implemented)
      then unimplemented
      else call (find_handler method s.methods) params

  unfoldable pub handle : Server → String → Fields → Legacy Json × Server
  handle s method params =
      if method == initialize
      then handle_initialize s params
      else if method == initialized
      then handle_initialized s
      else (dispatch s method params, s)

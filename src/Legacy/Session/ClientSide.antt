-- ===== src/Legacy/Session/ClientSide.antt =====
-- src/mcp_heartbeat_legacy/session.py: the client half.
use mcp_heartbeat.Prelude.{
  Bool, Option, String, if◌then◌else◌, none, not, ok, raise, some, ◌&&◌, ◌>>=◌,
}
use mcp_heartbeat.Json.{Fields, end, field, get, is_text, obj, str}
use mcp_heartbeat.Platform.{Platform}
use mcp_heartbeat.Legacy.Capabilities.{lease_capability}
use mcp_heartbeat.Legacy.Failures.{Legacy, invalid_params, protocol_error, silent_downgrade_refused}
use mcp_heartbeat.Legacy.Negotiation.{
  EraReport, HeartbeatNegotiation, assert_legacy_era, heartbeat_namespace, negotiate_heartbeat,
  supported, unnegotiated,
}
use mcp_heartbeat.Legacy.Session.{
  SessionState, created, failed, heartbeat_report, initializing, is_ready, not_offered,
  out_of_order, ready, server_info,
}

-- `LegacyClientSession`
pub record Client : Type 0 where
  pub client_name : String
  pub requested : String
  pub request_heartbeat : Bool
  pub state : SessionState
  pub heartbeat : Option HeartbeatNegotiation
  pub negotiated_era : Option String

unfoldable pub new_client : String → String → Bool → Legacy Client
new_client name requested request_heartbeat = do
  era ← assert_legacy_era requested
  ok (record {
    client_name = name;
    requested = era;
    request_heartbeat = request_heartbeat;
    state = created;
    heartbeat = none;
    negotiated_era = none;
  })

unfoldable pub client_report : Client → EraReport
unfolding supported
client_report c = elim c.negotiated_era [
  | none ↦ unnegotiated
  | some era ↦ heartbeat_report (some era) c.heartbeat
]

unfoldable pub client_heartbeat_ready : Client → Bool
unfolding client_report
client_heartbeat_ready c = is_ready c.state && (client_report c).heartbeat_supported

unfoldable pub client_capabilities : Client → Fields
client_capabilities c =
    if c.request_heartbeat then field heartbeat_namespace lease_capability end else end

-- the parameters of `initialize_request`
unfoldable pub initialize_request : Client → Legacy Fields
unfolding client_capabilities
initialize_request c = elim c.state [
  | created ↦ ok (
      field "protocolVersion" (str c.requested) (
        field "capabilities" (obj (client_capabilities c))
          (field "clientInfo" (server_info c.client_name) end)))
  | _ ↦ out_of_order
]

module _ (p : Platform) where
  abbrev pub client_negotiation : Client → Fields → HeartbeatNegotiation
  client_negotiation c result =
      if c.request_heartbeat
      then negotiate_heartbeat p (get "capabilities" result)
      else not_offered "this client did not offer the heartbeat extension"

  -- `answered != self.requested_protocol_version` marks the session failed
  unfoldable pub consume_initialize_result : Client → Fields → Legacy EraReport × Client
  unfolding client_report
  consume_initialize_result c result =
      if not (is_text (get "protocolVersion" result) c.requested)
      then (
        raise (protocol_error silent_downgrade_refused invalid_params),
        record c { state = failed },
      )
      else elim (assert_legacy_era c.requested) [
        | raise e ↦ (raise e, c)
        | ok era ↦
            let c' : Client = record c {
              negotiated_era = some era;
              heartbeat = some (client_negotiation c result);
              state = initializing;
            } in
            (ok (client_report c'), c')
      ]

  unfoldable pub initialized_notification : Client → Legacy (Unit {0}) × Client
  initialized_notification c = elim c.state [
    | initializing ↦ (ok tt, record c { state = ready })
    | _ ↦ (out_of_order, c)
  ]

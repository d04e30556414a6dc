-- ===== src/Legacy/Session/Agreement.antt =====
-- A handshake of the two halves of src/mcp_heartbeat_legacy/session.py.
use mcp_heartbeat.Prelude.{
  String, arith, contains, eq_iff, inl, inr, ok, refl, some, ◌&&◌, ◌≡◌, ◌⊎◌,
}
use mcp_heartbeat.Json.{Fields, end, field, obj, str}
use mcp_heartbeat.Platform.{Platform}
use mcp_heartbeat.Legacy.Capabilities.{advertise, read_method}
use mcp_heartbeat.Legacy.Negotiation.{
  assert_legacy_era, disagreement, negotiate_heartbeat, negotiate_protocol, protocol_accepted,
  supported,
}
use mcp_heartbeat.Legacy.Session.{
  Server, created, handle_initialize, initializing, server_info, server_report,
}
use mcp_heartbeat.Legacy.Session.ClientSide.{
  Client, client_capabilities, client_report, consume_initialize_result, initialize_request,
}

-- An era that the adapter accepts is one of the two revisions that it speaks.
pub assert_legacy_era_lem :
    (era e : String) → assert_legacy_era era ≡ ok e → (era ≡ "2025-06-18") ⊎ (era ≡ "2025-03-26")
unfolding assert_legacy_era
assert_legacy_era_lem era e h = ground (arith, eq_iff era "2025-06-18", eq_iff era "2025-03-26")

module _ (p : Platform) where
  -- what the two halves hold after `initialize` was sent and answered
  unfoldable pub HandshakeAgrees : Server → Client → Fields → Type 0
  HandshakeAgrees s c request =
      let (answer, s') = handle_initialize p s request in
      (result : Fields) × (answer ≡ ok (obj result))
      × (let (report, c') = consume_initialize_result p c result in
          (report ≡ ok (client_report c'))
          × (client_report c' ≡ server_report s')
          × ((server_report s').mcp_protocol_era ≡ some c.requested)
          × ((server_report s').heartbeat_supported
              ≡ (c.request_heartbeat && contains read_method s.implemented))
          × (s'.state ≡ initializing)
          × (c'.state ≡ initializing)
          × (s'.disagreements ≡ s.disagreements))

  -- the request of `initialize_request`, whatever the client's state
  abbrev pub request_of : Client → Fields
  request_of c = field "protocolVersion" (str c.requested) (
      field "capabilities" (obj (client_capabilities c))
        (field "clientInfo" (server_info c.client_name) end))

  agrees_2025_06 :
      (s : Server) (c : Client)
      → s.state ≡ created
      → c.requested ≡ "2025-06-18"
      → HandshakeAgrees s c (request_of c)
  unfolding handle_initialize consume_initialize_result server_report client_report
      assert_legacy_era client_capabilities negotiate_protocol negotiate_heartbeat advertise
      supported protocol_accepted disagreement HandshakeAgrees
  agrees_2025_06 s c hs hc = rw (hs, hc) (_, refl, ground arith)

  agrees_2025_03 :
      (s : Server) (c : Client)
      → s.state ≡ created
      → c.requested ≡ "2025-03-26"
      → HandshakeAgrees s c (request_of c)
  unfolding handle_initialize consume_initialize_result server_report client_report
      assert_legacy_era client_capabilities negotiate_protocol negotiate_heartbeat advertise
      supported protocol_accepted disagreement HandshakeAgrees
  agrees_2025_03 s c hs hc = rw (hs, hc) (_, refl, ground arith)

  pub request_lem :
      (c : Client) (request : Fields) → initialize_request c ≡ ok request → request ≡ request_of c
  unfolding initialize_request
  request_lem c request h = ground arith

  pub handshake_agrees :
      (s : Server) (c : Client) (era : String) (request : Fields)
      → s.state ≡ created
      → assert_legacy_era c.requested ≡ ok era
      → initialize_request c ≡ ok request
      → HandshakeAgrees s c request
  handshake_agrees s c era request hs he hr =
      rw (request_lem c request hr) (elim (assert_legacy_era_lem c.requested era he) [
        | inl e ↦ agrees_2025_06 s c hs e
        | inr e ↦ agrees_2025_03 s c hs e
      ])

-- ===== src/Conformance/DualEra/Exchange.antt =====
-- A client of the current adapter against the server of both eras.
use mcp_heartbeat.Prelude.{
  Bool, Result-cases, String, arith, contains, false, inl, inr, none, ok, refl, some, true, ◌==◌,
  ◌∙◌, ◌≡◌,
}
use mcp_heartbeat.Json.{Fields, Json, end, field, obj, str}
use mcp_heartbeat.Platform.{Platform}
use mcp_heartbeat.Conformance.DualEra.{
  DualServer, legacy_call, of_call, of_handler, serve_current, serve_dual,
}
use mcp_heartbeat.Core.Model.{extension_version, to_dict}
use mcp_heartbeat.Current.Contract.{
  discover_method, modern_versions, protocol_revision, read_resource_method,
}
use mcp_heartbeat.Current.Discovery.{
  Negotiation, build_discover_request, build_discover_result, build_read_request,
  default_capability, read_capability, request_of_method, resource_uri,
}
use mcp_heartbeat.Current.Era.{legacy_only_methods}
use mcp_heartbeat.Current.Metadata.{Headers, RequestEnvelope, build_request}
use mcp_heartbeat.Legacy.Negotiation.{assert_legacy_era}
use mcp_heartbeat.Legacy.Session.{created, handle, handle_initialize, initialize}
use mcp_heartbeat.Current.Discovery.Offers.{
  FloatsAreRead, NegotiatesTo, negotiate-build_discover_result,
}
use mcp_heartbeat.Current.Era.Routing.{route-build_request, route-initialize_request, route_sound}
use mcp_heartbeat.Current.Metadata.Ladder.{KeepsHeaders}
use mcp_heartbeat.Legacy.Session.Agreement.{HandshakeAgrees, handshake_agrees}
use mcp_heartbeat.Legacy.Session.ClientSide.{Client, initialize_request}

module _ (p : Platform) (f : KeepsHeaders p) where
  -- what the server answers to a request that this adapter built
  served_lem :
      (d : DualServer) (e : RequestEnvelope) (request_id : Json) (body : Fields) (headers : Headers)
      → build_request p e request_id ≡ ok (body, headers)
      → (e.method == "") ≡ false
      → contains e.method legacy_only_methods ≡ false
      → contains e.protocol_version modern_versions ≡ true
      → (serve_dual p d body headers).0 ≡ of_call p (serve_current p d e.method)
  unfolding serve_dual
  served_lem d e request_id body headers b m l v =
      let routed = route-build_request p f e request_id body headers b m l v in
      let (named_, given_, era_) = route_sound p body headers _ routed in rw (routed, named_) refl

  abbrev pub dual_info : Fields
  dual_info = field "name" (str "dual-era-conformance") (field "version" (str "0.1.0") end)

  answered :
      (result : Fields) × (build_discover_result p dual_info (some default_capability) end none true
        ≡ ok result)
  unfolding build_discover_result
  answered = (_, refl)

  discovered :
      (d : DualServer) (result : Fields)
      → build_discover_result p dual_info (some default_capability) end none true ≡ ok result
      → of_call p (serve_current p d discover_method) ≡ ok (obj result)
  unfolding serve_current
  discovered d result q = simp (q)

  -- On such a platform whose `float` reads back a float: when `build_discover_request` for
  -- the current revision returns a request, the server of both eras answers it with a result
  -- for which `negotiate`, strict or not, enables the heartbeat with the default capability.
  discover-negotiates :
      (d : DualServer) (request_id : Json) (info capabilities : Fields) (body : Fields)
      (headers : Headers) (strict : Bool)
      → FloatsAreRead p
      → build_discover_request p request_id protocol_revision info capabilities ≡ ok (body, headers)
      → (result : Fields) × ((serve_dual p d body headers).0 ≡ ok (obj result))
        × NegotiatesTo p
            (field "name" (str "dual-era-conformance") (field "version" (str "0.1.0") end))
            (some default_capability)
            end
            none
            true
            extension_version
            strict
            result
            default_capability
  unfolding build_discover_request
  discover-negotiates d request_id info capabilities body headers strict g b =
      let (result, q) = answered in
      let e = request_of_method p discover_method end protocol_revision info capabilities in
      (
        result,
        served_lem d e request_id body headers b refl refl refl ∙ discovered d result q,
        negotiate-build_discover_result p dual_info (some default_capability) end none true
            extension_version strict result g q refl,
      )

  read-document :
      (d : DualServer) (n : Negotiation) (node : String) (request_id : Json)
      (info capabilities : Fields) (body : Fields) (headers : Headers)
      → n.protocol_revision ≡ protocol_revision
      → build_read_request p node n request_id info capabilities ≡ ok (body, headers)
      → (serve_dual p d body headers).0
        ≡ ok (obj (field "document" (obj (to_dict p d.current)) end))
  unfolding build_read_request serve_current
  read-document d n node request_id info capabilities body headers v b =
      elim (Result-cases (read_capability p n)) [
        | inr (x, q) ↦ ground (arith, b, q)
        | inl (c, q) ↦ elim (Result-cases (resource_uri p c node)) [
          | inr (x, r) ↦ ground (arith, b, q, r)
          | inl (uri, r) ↦
              let e =
                request_of_method p read_resource_method (field "uri" (str uri) end)
                  n.protocol_revision info capabilities in
              served_lem d e request_id body headers (ground (arith, b, q, r)) refl refl (rw v refl)
        ]
      ]

module _ (p : Platform) where
  abbrev pub hello : Fields → Fields
  hello params = field "method" (str initialize) (field "params" (obj params) end)

  -- When a legacy client requests a version that passes `assert_legacy_era` and
  -- `initialize_request` returns, and the legacy session of the server of both eras is in
  -- CREATED: the server, with any headers, routes the request to that session, which answers
  -- as if it were alone and agrees with the client on the era and the heartbeat, and the
  -- lease is as it was.
  pub hello-served :
      (d : DualServer) (c : Client) (era : String) (params : Fields) (headers : Headers)
      → assert_legacy_era c.requested ≡ ok era
      → initialize_request c ≡ ok params
      → d.legacy.state ≡ created
      → let (answer, d') = serve_dual p d (hello params) headers in
        ((answer, d'.legacy) ≡ of_handler p (handle_initialize p d.legacy params))
        × HandshakeAgrees p d.legacy c params
        × (d'.current ≡ d.current)
  unfolding serve_dual legacy_call handle
  hello-served d c era params headers a r s =
      let routed = route-initialize_request p c era params headers a r in
      rw routed (refl, handshake_agrees p d.legacy c era params s a r, refl)

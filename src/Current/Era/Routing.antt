-- ===== src/Current/Era/Routing.antt =====
-- Which messages are routed to which era, and what the two adapters send.
use mcp_heartbeat.Prelude.{
  Option-cases, Result-cases, String, ap, arith, contains, eq_iff, false, inl, inr, none, ok, refl,
  some, true, ◌==◌, ◌≡◌, ◌⊎◌,
}
use mcp_heartbeat.Json.{
  Fields, Json, end, field, get, get-set_item, has-set_item, non_empty_text, obj, str,
}
use mcp_heartbeat.Platform.{Platform}
use mcp_heartbeat.Current.Contract.{modern_versions}
use mcp_heartbeat.Current.Era.{
  EraRoute, current_era, current_route, handshake_era, handshake_route, has_modern_envelope,
  is_handshake_method, legacy_only_methods, proposed_version, proposes_modern, route, route_method,
}
use mcp_heartbeat.Current.Metadata.{
  Headers, ModernRoute, RequestEnvelope, build_request, classify_request, meta,
}
use mcp_heartbeat.Legacy.Negotiation.{assert_legacy_era}
use mcp_heartbeat.Legacy.Session.{initialize}
use mcp_heartbeat.Current.Metadata.Ladder.{
  KeepsHeaders, build_request_parts, classify_request-build_request, envelope_body, route_of,
}
use mcp_heartbeat.Legacy.Session.Agreement.{assert_legacy_era_lem, request_lem}
use mcp_heartbeat.Legacy.Session.ClientSide.{Client, initialize_request}

-- What a message is that was routed.
abbrev pub IsOfEra : Platform → Fields → Headers → EraRoute → Type 0
IsOfEra p body headers r =
    ((r.era ≡ current_era)
      × (has_modern_envelope body ≡ true)
      × (contains r.method legacy_only_methods ≡ false)
      × ((m : ModernRoute) × (classify_request p body headers modern_versions ≡ ok m)
          × (r.modern ≡ some m)
          × (r.protocol_version ≡ some m.protocol_version)))
    ⊎ ((r.era ≡ handshake_era)
        × (has_modern_envelope body ≡ false)
        × (is_handshake_method body ≡ true)
        × (r.modern ≡ none)
        × (proposes_modern r.protocol_version ≡ false)
        × (r.protocol_version ≡ proposed_version body))

non_empty_text_lem :
    (v : Json) (s : String) → non_empty_text v ≡ some s → (v ≡ str s) × ((s == "") ≡ false)
non_empty_text_lem v s h = ground arith

module _ (p : Platform) where
  route-IsOfEra :
      (body : Fields) (headers : Headers) (method : String) (r : EraRoute)
      → route_method p body headers method ≡ ok r
      → IsOfEra p body headers r
  route-IsOfEra body headers method r e =
      elim (Result-cases (classify_request p body headers modern_versions)) [
        | inl (m, q) ↦ ground (arith, q)
        | inr (x, q) ↦ ground (arith, q)
      ]

  route_method_lem :
      (body : Fields) (headers : Headers) (method : String) (r : EraRoute)
      → route_method p body headers method ≡ ok r
      → r.method ≡ method
  route_method_lem body headers method r e =
      elim (Result-cases (classify_request p body headers modern_versions)) [
        | inl (m, q) ↦ ground (arith, q)
        | inr (x, q) ↦ ground (arith, q)
      ]

  -- When `route` returns a route, its method is that of the body and not empty, and either
  -- the era is the current one, the body has the modern envelope, the method is no legacy one
  -- and `classify_request` returned the route that is recorded; or the era is the handshake
  -- one, the body has no modern envelope, the method is one of the handshake and the version
  -- it proposes, which is recorded, is not a modern one.
  pub route_sound :
      (body : Fields) (headers : Headers) (r : EraRoute)
      → route p body headers ≡ ok r
      → (get "method" body ≡ str r.method) × ((r.method == "") ≡ false) × IsOfEra p body headers r
  unfolding route
  route_sound body headers r e = elim (Option-cases (non_empty_text (get "method" body))) [
    | inl q ↦ ground (arith, q)
    | inr (method, q) ↦
        let through : route_method p body headers method ≡ ok r = ground (arith, q) in
        let (named_, given) = non_empty_text_lem (get "method" body) method q in
        let same_ = route_method_lem body headers method r through in
        (rw same_ named_, rw same_ given, route-IsOfEra body headers method r through)
  ]

  pub route-initialize_request :
      (c : Client) (era : String) (params : Fields) (headers : Headers)
      → assert_legacy_era c.requested ≡ ok era
      → initialize_request c ≡ ok params
      → route p (field "method" (str initialize) (field "params" (obj params) end)) headers
        ≡ ok (handshake_route p initialize (some c.requested))
  unfolding route initialize_request
  route-initialize_request c era params headers a r =
      rw (request_lem p c params r)
        (elim (assert_legacy_era_lem c.requested era a) [ inl q ↦ simp q | inr q ↦ simp q ])

  envelope_body_lem :
      (f : KeepsHeaders p) (e : RequestEnvelope) (request_id : Json) (old : Fields)
      → (e.method == "") ≡ false
      → contains e.method legacy_only_methods ≡ false
      → let body = envelope_body p f e request_id old in
        (non_empty_text (get "method" body) ≡ some e.method)
        × (has_modern_envelope body ≡ true)
        × (is_handshake_method body ≡ false)
  unfolding has_modern_envelope is_handshake_method meta
  envelope_body_lem f e request_id old m l =
      (rw m refl, simp (get-set_item, has-set_item), ground (arith, l))

  pub route-build_request :
      (f : KeepsHeaders p) (e : RequestEnvelope) (request_id : Json) (body : Fields)
      (headers : Headers)
      → build_request p e request_id ≡ ok (body, headers)
      → (e.method == "") ≡ false
      → contains e.method legacy_only_methods ≡ false
      → contains e.protocol_version modern_versions ≡ true
      → route p body headers ≡ ok (current_route p e.method (route_of p f e))
  unfolding route
  route-build_request f e request_id body headers b m l v =
      let (old, named_, r, qb, qh) = build_request_parts p f e request_id body headers b in
      let (method, modern, other) = envelope_body_lem f e request_id old m l in
      let revision : e.protocol_version ≡ "2026-07-28" =
        ground (arith, v, eq_iff e.protocol_version "2026-07-28") in
      let given : (e.protocol_version == "") ≡ false = ap (λ (s : String). s == "") revision in
      let classified =
        classify_request-build_request p f e request_id body headers modern_versions b m given v in
      let method' : non_empty_text (get "method" body) ≡ some e.method = simp qb method in
      let modern' : has_modern_envelope body ≡ true = simp qb modern in
      let other' : is_handshake_method body ≡ false = simp qb other in
      ground (arith, method', modern', other', l, classified)

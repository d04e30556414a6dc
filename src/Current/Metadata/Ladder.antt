-- ===== src/Current/Metadata/Ladder.antt =====
-- What `build_request` sends against what `classify_request` lets through.
use mcp_heartbeat.Prelude.{
  List, Option, Result-cases, String, [], arith, contains, eq_refl, false, inl, inr, none, ok, refl,
  some, true, ◌==◌, ◌∷◌, ◌≡◌, ◌⊎◌,
}
use mcp_heartbeat.Json.{
  Fields, Json, arr, bool, end, field, float, get, get-set_item, int, merged, null, obj, set_item,
  str,
}
use mcp_heartbeat.Platform.{Platform, show}
use mcp_heartbeat.Current.Contract.{
  ignored_legacy_headers, method_header, name_header, name_param, version_header,
}
use mcp_heartbeat.Current.Metadata.{
  Headers, ModernRoute, RequestEnvelope, as_dict, body_of, build_request, classify_request, header,
  headers_of, meta, name_differs, name_headers, name_mismatch, named_headers, present_headers,
}
use mcp_heartbeat.Legacy.Identity.{named}

-- What is used of `str.lower`: the names of the standard headers are in lower case.
pub record KeepsHeaders (p : Platform) : Type 0 where
  pub version_name : p.lower version_header ≡ version_header
  pub method_name : p.lower method_header ≡ method_header
  pub name_name : p.lower name_header ≡ name_header

module _ (p : Platform) (f : KeepsHeaders p) where
  -- the route that a request of `e` is classified to
  abbrev pub route_of : RequestEnvelope → ModernRoute
  route_of e = record {
    protocol_version = e.protocol_version;
    method = e.method;
    client_info = e.client_info;
    client_capabilities = e.client_capabilities;
    ignored_headers = [];
  }

  abbrev pub envelope_body : RequestEnvelope → Json → Fields → Fields
  envelope_body e request_id old = field "jsonrpc" (str "2.0") (
      field "id" request_id (
        field "method" (str e.method)
          (field "params" (obj (set_item "_meta" (obj (merged old (meta e))) e.params)) end)))

  pub build_request_parts :
      (e : RequestEnvelope) (request_id : Json) (body : Fields) (headers : Headers)
      → build_request p e request_id ≡ ok (body, headers)
      → (old : Fields) × (named : Headers) × (named_headers p (name_param e.method) e.params
          ≡ ok named)
        × (body ≡ envelope_body e request_id old)
        × (headers ≡ (version_header, e.protocol_version) ∷ (method_header, e.method) ∷ named)
  unfolding build_request body_of headers_of
  build_request_parts e request_id body headers b =
      elim (Result-cases (as_dict p (get "_meta" e.params))) [
        | inr (x, q) ↦ ground (arith, q)
        | inl (old, q) ↦ elim (Result-cases (named_headers p (name_param e.method) e.params)) [
          | inr (x, r) ↦ ground (arith, q, r)
          | inl (named, r) ↦ (old, named, r, ground (arith, q, r), ground (arith, q, r))
        ]
      ]

  name_headers_lem :
      (value : Json) (named : Headers)
      → name_headers p value ≡ ok named
      → (named ≡ (name_header, show p value) ∷ [])
        × (name_differs p (some (show p value)) value ≡ false)
  name_headers_lem null named h = cc
  name_headers_lem (bool b) named h = (ground (arith, h), rw eq_refl refl)
  name_headers_lem (int b) named h = (ground (arith, h), rw eq_refl refl)
  name_headers_lem (float b) named h = (ground (arith, h), rw eq_refl refl)
  name_headers_lem (str b) named h = (ground (arith, h), rw eq_refl refl)
  name_headers_lem (arr b) named h = (ground (arith, h), rw eq_refl refl)
  name_headers_lem (obj b) named h = (ground (arith, h), rw eq_refl refl)

  -- the headers that name a parameter name nothing else, and mirror it
  named_lem :
      (name : Option String) (params : Fields) (v m : String) (named : Headers)
      → named_headers p name params ≡ ok named
      → let headers = (version_header, v) ∷ (method_header, m) ∷ named in
        (header p version_header headers ≡ some v)
        × (header p method_header headers ≡ some m)
        × (name_mismatch p name headers params ≡ false)
        × (present_headers p ignored_legacy_headers headers ≡ [])
  unfolding header
  named_lem none params v m named h =
      let nothing : named ≡ [] = ground (arith, h) in
      rw (nothing, f.method_name, f.version_name) (refl, refl, refl, refl)
  named_lem (some name) params v m named h =
      let (one, same_) = name_headers_lem (get name params) named h in
      rw (one, f.name_name, f.method_name, f.version_name) (refl, refl, same_, refl)

  name_param_cases :
      (method : String)
      → (name_param method ≡ none)
        ⊎ (name_param method ≡ some "name")
        ⊎ (name_param method ≡ some "uri")
  name_param_cases method = ground arith

  name_mismatch-set_item :
      (method : String) (headers : Headers) (v : Json) (params : Fields)
      → name_mismatch p (name_param method) headers (set_item "_meta" v params)
        ≡ name_mismatch p (name_param method) headers params
  name_mismatch-set_item method headers v params = elim (name_param_cases method) [
    | inl q ↦ rw q
    | inr (inl q) ↦ rw (q, get-set_item "name" "_meta" v params)
    | inr (inr q) ↦ rw (q, get-set_item "uri" "_meta" v params)
  ]

  ladder :
      (e : RequestEnvelope) (request_id : Json) (old : Fields) (headers : Headers)
      (spoken : List String)
      → (e.method == "") ≡ false
      → (e.protocol_version == "") ≡ false
      → contains e.protocol_version spoken ≡ true
      → header p version_header headers ≡ some e.protocol_version
      → header p method_header headers ≡ some e.method
      → name_mismatch p (name_param e.method) headers e.params ≡ false
      → present_headers p ignored_legacy_headers headers ≡ []
      → classify_request p (envelope_body e request_id old) headers spoken ≡ ok (route_of e)
  unfolding classify_request meta
  ladder e request_id old headers spoken m v s hv hm hn hi =
      simp (m, get-set_item, v, s, hv, hm, eq_refl, name_mismatch-set_item, hn, hi)

  -- On a platform whose `lower` keeps the names of the three standard headers: when
  -- `build_request` of an envelope with a method and a version that are not empty returns a
  -- body and headers, `classify_request` with supported versions that contain the version
  -- returns the route with the method, version, client info and capabilities of the envelope
  -- and no ignored header.
  pub classify_request-build_request :
      (e : RequestEnvelope) (request_id : Json) (body : Fields) (headers : Headers)
      (spoken : List String)
      → build_request p e request_id ≡ ok (body, headers)
      → (e.method == "") ≡ false
      → (e.protocol_version == "") ≡ false
      → contains e.protocol_version spoken ≡ true
      → classify_request p body headers spoken ≡ ok (route_of e)
  unfolding build_request classify_request
  classify_request-build_request e request_id body headers spoken b m v s =
      let (old, named, r, qb, qh) = build_request_parts e request_id body headers b in
      let (hv, hm, hn, hi) =
        named_lem (name_param e.method) e.params e.protocol_version e.method named r in
      rw (qb, qh) (ladder e request_id old _ spoken m v s hv hm hn hi)

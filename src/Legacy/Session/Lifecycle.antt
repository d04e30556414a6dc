-- ===== src/Legacy/Session/Lifecycle.antt =====
-- The server half of src/mcp_heartbeat_legacy/session.py over a whole connection.
use mcp_heartbeat.Prelude.{
  Bool-cases, List, String, [], arith, contains, false, inl, inr, none, ok, refl, some, true, ◌==◌,
  ◌∷◌, ◌≡◌, ◌⊎◌,
}
use mcp_heartbeat.Json.{Fields, Json, arr, bool, float, get, int, null, obj, str}
use mcp_heartbeat.Platform.{Platform}
use mcp_heartbeat.Legacy.Negotiation.{
  ProtocolNegotiation, assert_legacy_era, disagreement, modern_era, negotiate_protocol,
  outcome_accepted, protocol_accepted, supported_version, supported_versions,
}
use mcp_heartbeat.Legacy.Session.{
  Handler, Server, SessionState, created, dispatch, failed, handle, handle_initialize,
  handle_initialized, initialize, initialize_with, initialized, initializing, is_ready, new_server,
  ready, server_report,
}

-- What the ledger of a session holds in each of its states.
unfoldable pub LedgerIsSound : Server → Type 0
unfolding protocol_accepted
LedgerIsSound s = elim s.state [
  | created ↦ (s.protocol ≡ none) × (s.heartbeat ≡ none) × (s.disagreements ≡ [])
  | failed ↦
      (n : ProtocolNegotiation) × (s.protocol ≡ some n)
      × (protocol_accepted n ≡ false)
      × (s.heartbeat ≡ none)
      × (s.disagreements
          ≡ record { requested = n.requested; code = n.code; detail = n.detail } ∷ [])
  | _ ↦
      (n : ProtocolNegotiation) × (version : String) × (s.protocol ≡ some n)
      × (protocol_accepted n ≡ true)
      × (n.negotiated ≡ some version)
      × (n.requested ≡ str version)
      × (contains version supported_versions ≡ true)
      × (s.disagreements ≡ [])
]

module _ (p : Platform) where
  -- For every value of `protocolVersion`, `negotiate_protocol` does not accept, or the value
  -- is a text among the supported versions and the negotiation is to exactly that version.
  negotiate_protocol_lem :
      (v : Json)
      → (protocol_accepted (negotiate_protocol p v) ≡ false)
        ⊎ ((version : String) × (v ≡ str version)
            × (contains version supported_versions ≡ true)
            × (negotiate_protocol p v ≡ record {
              outcome = outcome_accepted;
              code = supported_version;
              requested = str version;
              negotiated = some version;
              detail = "negotiated the revision the peer requested";
            }))
  unfolding negotiate_protocol protocol_accepted
  negotiate_protocol_lem (str s) = elim (Bool-cases (s == "")) [
    | inl e ↦ inl (rw e refl)
    | inr e ↦ elim (Bool-cases (s == modern_era)) [
      | inl m ↦ inl (rw (e, m) refl)
      | inr m ↦ elim (Bool-cases (contains s supported_versions)) [
        | inl h ↦ inr (s, refl, h, rw (e, m, h) refl)
        | inr h ↦ inl (rw (e, m, h) refl)
      ]
    ]
  ]
  negotiate_protocol_lem null = inl refl
  negotiate_protocol_lem (bool b) = inl refl
  negotiate_protocol_lem (int n) = inl refl
  negotiate_protocol_lem (float t) = inl refl
  negotiate_protocol_lem (arr xs) = inl refl
  negotiate_protocol_lem (obj fs) = inl refl

  created_lem :
      (s : Server)
      → s.state ≡ created
      → LedgerIsSound s
      → (s.protocol ≡ none) × (s.heartbeat ≡ none) × (s.disagreements ≡ [])
  unfolding LedgerIsSound
  created_lem s hs = rw hs (λ h. h)

  refused-LedgerIsSound :
      (s : Server) (params : Fields) (n : ProtocolNegotiation)
      → s.heartbeat ≡ none
      → s.disagreements ≡ []
      → protocol_accepted n ≡ false
      → LedgerIsSound (initialize_with p s params n).1
  unfolding LedgerIsSound protocol_accepted disagreement
  refused-LedgerIsSound s params n hh hd hn = rw (hn, hd) (n, refl, hn, hh, refl)

  initialize_with-LedgerIsSound :
      (s : Server) (params : Fields) (v : Json)
      → s.heartbeat ≡ none
      → s.disagreements ≡ []
      → LedgerIsSound (initialize_with p s params (negotiate_protocol p v)).1
  unfolding LedgerIsSound protocol_accepted disagreement
  initialize_with-LedgerIsSound s params v hh hd = elim (negotiate_protocol_lem v) [
    | inl r ↦ refused-LedgerIsSound s params (negotiate_protocol p v) hh hd r
    | inr (version, hv, hc, e) ↦ rw e (_, version, refl, refl, refl, refl, hc, hd)
  ]

  initialized_at :
      (s : Server) (at : SessionState)
      → s.state ≡ at
      → LedgerIsSound s
      → LedgerIsSound (handle_initialized p s).1
  unfolding LedgerIsSound handle_initialized
  initialized_at s created e = rw e (λ h. h)
  initialized_at s initializing e = rw e (λ h. h)
  initialized_at s ready e = rw e (λ h. h)
  initialized_at s failed e = rw e (λ h. h)

  initialize_at :
      (s : Server) (params : Fields) (at : SessionState)
      → s.state ≡ at
      → LedgerIsSound s
      → LedgerIsSound (handle_initialize p s params).1
  unfolding handle_initialize LedgerIsSound
  initialize_at s params created e = λ h.
      let (none_yet, no_heartbeat, clear) = created_lem s e h in
      rw e (
        initialize_with-LedgerIsSound (record s { state = created }) params
          (get "protocolVersion" params) no_heartbeat clear)
  initialize_at s params initializing e = rw e (λ h. h)
  initialize_at s params ready e = rw e (λ h. h)
  initialize_at s params failed e = rw e (λ h. h)

  -- Each request keeps the ledger sound.
  pub handle-LedgerIsSound :
      (s : Server) (method : String) (params : Fields)
      → LedgerIsSound s
      → LedgerIsSound (handle p s method params).1
  unfolding handle
  handle-LedgerIsSound s method params h = elim (Bool-cases (method == initialize)) [
    | inl a ↦ rw a (initialize_at s params s.state refl h)
    | inr a ↦ elim (Bool-cases (method == initialized)) [
      | inl b ↦ rw (a, b) (initialized_at s s.state refl h)
      | inr b ↦ rw (a, b) h
    ]
  ]

  -- what a connection brings: each request or notification and its parameters
  unfoldable pub serve : Server → List (String × Fields) → Server
  serve s [] = s
  serve s ((method, params) ∷ rest) = serve (handle p s method params).1 rest

  serve-LedgerIsSound :
      (s : Server) (calls : List (String × Fields))
      → LedgerIsSound s
      → LedgerIsSound (serve s calls)
  unfolding serve
  serve-LedgerIsSound s [] h = h
  serve-LedgerIsSound s ((method, params) ∷ rest) h =
      serve-LedgerIsSound (handle p s method params).1 rest (handle-LedgerIsSound s method params h)

  new_server_lem :
      (name era : String) (methods : List (String × Handler)) (implemented : List String)
      (s : Server)
      → new_server name methods implemented era ≡ ok s
      → (s.state ≡ created) × (s.protocol ≡ none) × (s.heartbeat ≡ none) × (s.disagreements ≡ [])
  unfolding new_server assert_legacy_era
  new_server_lem name era methods implemented s h = ground arith

  created-LedgerIsSound :
      (s : Server)
      → s.state ≡ created
      → (s.protocol ≡ none) × (s.heartbeat ≡ none) × (s.disagreements ≡ [])
      → LedgerIsSound s
  unfolding LedgerIsSound
  created-LedgerIsSound s e = rw e (λ h. h)

  -- For a server session that was just constructed, after any list of requests: in CREATED
  -- nothing was negotiated or recorded; in FAILED the recorded negotiation was not accepted,
  -- and the ledger holds exactly that one disagreement; in INITIALIZING and READY an accepted
  -- negotiation for the requested, supported version is recorded and the ledger is empty.
  pub serve_new-LedgerIsSound :
      (name era : String) (methods : List (String × Handler)) (implemented : List String)
      (s : Server) (calls : List (String × Fields))
      → new_server name methods implemented era ≡ ok s
      → LedgerIsSound (serve s calls)
  serve_new-LedgerIsSound name era methods implemented s calls h =
      let (e, x, y, z) = new_server_lem name era methods implemented s h in
      serve-LedgerIsSound s calls (created-LedgerIsSound s e (x, y, z))

  ready_lem :
      (s : Server)
      → s.state ≡ ready
      → LedgerIsSound s
      → (version : String) × (contains version supported_versions ≡ true)
        × ((server_report s).mcp_protocol_era ≡ some version)
        × (s.disagreements ≡ [])
  unfolding LedgerIsSound server_report protocol_accepted
  ready_lem s e =
      rw e (λ (n, version, en, acc, ev, er, hv, hd).
        (version, hv, rw en (ground (arith, acc, ev)), hd))

  answered_lem :
      (s : Server) (method : String) (params : Fields) (answer : Json)
      → (method == initialize) ≡ false
      → (method == initialized) ≡ false
      → (handle p s method params).0 ≡ ok answer
      → (is_ready s.state ≡ true) × (contains method s.implemented ≡ true)
  unfolding handle dispatch
  answered_lem s method params answer a b r = ground arith

  is_ready_lem : (at : SessionState) → is_ready at ≡ true → at ≡ ready
  is_ready_lem at h = ground arith

  -- When a session whose ledger is sound answers a method other than the two of the
  -- lifecycle, the method is one it implements, its era report names a supported version, and
  -- no disagreement is recorded.
  answered-negotiated :
      (s : Server) (method : String) (params : Fields) (answer : Json)
      → (method == initialize) ≡ false
      → (method == initialized) ≡ false
      → (handle p s method params).0 ≡ ok answer
      → LedgerIsSound s
      → (contains method s.implemented ≡ true)
        × ((version : String) × (contains version supported_versions ≡ true)
            × ((server_report s).mcp_protocol_era ≡ some version)
            × (s.disagreements ≡ []))
  answered-negotiated s method params answer a b r h =
      let (at, served) = answered_lem s method params answer a b r in
      (served, ready_lem s (is_ready_lem s.state at) h)

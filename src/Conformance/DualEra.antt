-- ===== src/Conformance/DualEra.antt =====
-- cross_era.py: `DualEraServer`, one endpoint that serves both eras.
use Prim.Native.String.{◌++◌ as append}
use mcp_heartbeat.Prelude.{
  Bool, List, Option, Result, String, [], false, if◌then◌else◌, none, ok, raise, some, true, ◌&&◌,
  ◌++◌, ◌==◌, ◌>>=◌, ◌∷◌,
}
use mcp_heartbeat.Json.{Fields, Json, end, field, get, null, obj, str, truthy}
use mcp_heartbeat.Platform.{Platform, show}
use mcp_heartbeat.Core.Errors.{Raises, key_error}
use mcp_heartbeat.Core.Model.{Heartbeat, to_dict}
use mcp_heartbeat.Core.Producer.{FakeClock, Issuer, advance, default_lease, issue, new_issuer}
use mcp_heartbeat.Current.Contract.{discover_method, read_resource_method}
use mcp_heartbeat.Current.Discovery.{build_discover_result, default_capability}
use mcp_heartbeat.Current.Era.{Era, EraRoute, current_era, handshake_era, route}
use mcp_heartbeat.Current.Failures.{
  AdapterError, Call, Raised, adapter, builtin, cross_era, forbidden_primitive,
  unsupported_protocol,
}
use mcp_heartbeat.Current.Metadata.{Headers}
use mcp_heartbeat.Legacy.Capabilities.{list_changed_method, read_method, subscribe_method}
use mcp_heartbeat.Legacy.Failures.{Legacy, LegacyError}
use mcp_heartbeat.Legacy.Negotiation.{legacy_era}
use mcp_heartbeat.Legacy.Session.{Server, SessionState, created, handle, initialize, new_server}
use mcp_heartbeat.Prelude.Int.{pos}
pub mod Isolation
pub mod Exchange

abbrev pub participant : String
participant = "svc/api-7"

-- `LEGACY_IMPLEMENTED`
abbrev pub legacy_implemented : List String
legacy_implemented =
    read_method ∷ subscribe_method ∷ "resources/unsubscribe" ∷ list_changed_method ∷ []

-- What leaves the server: an exception of an adapter or of Python, where `no_attribute` is
-- AttributeError.
pub data DualError : Type 0 where
  of_current : Raised → DualError
  of_legacy : LegacyError → DualError
  no_attribute : DualError

pub record DualServer : Type 0 where
  pub legacy : Server
  pub clock : FakeClock
  pub issuer : Issuer
  pub current : Heartbeat
  pub mutations : List String
  pub refusals : List (String × AdapterError)

-- `FakeClock()`: 2026-01-01, and 1000 seconds
abbrev pub new_clock : FakeClock
new_clock = record { wall = 63902822400000000; monotonic = 1000000000 }

abbrev pub dual_issuer : Issuer
dual_issuer = new_issuer participant (some "epoch-a") "epoch-a" default_lease end

abbrev pub dual_with : Server → Heartbeat × Issuer → DualServer
dual_with session (h, i) = record {
  legacy = session;
  clock = new_clock;
  issuer = i;
  current = h;
  mutations = [];
  refusals = [];
}

abbrev pub of_session : Legacy Server → Result DualError Server
of_session (ok s) = ok s
of_session (raise e) = raise (of_legacy e)

abbrev pub of_core : {A : Type 0} → Raises A → Result DualError A
of_core (ok a) = ok a
of_core (raise e) = raise (of_current (builtin e))

-- `DualEraServer()`
unfoldable pub new_dual : Result DualError DualServer
unfolding new_issuer
new_dual = do
  session ← of_session (new_server "dual-era-conformance" [] legacy_implemented legacy_era)
  issued ← of_core (issue dual_issuer new_clock.wall)
  ok (dual_with session issued)

-- the exceptions of `route` that are recorded
abbrev pub recorded : Raised → Option AdapterError
recorded (adapter cross_era) = some cross_era
recorded (adapter (unsupported_protocol v)) = some (unsupported_protocol v)
recorded (adapter forbidden_primitive) = some forbidden_primitive
recorded _ = none

abbrev pub is_created : SessionState → Bool
is_created created = true
is_created _ = false

-- `beat`, one second later
abbrev pub issue_at :
    DualServer → FakeClock → Raises (Heartbeat × Issuer) → Raises Json × DualServer
issue_at d clock (ok (h, i)) = (ok null, record d { clock = clock; issuer = i; current = h })
issue_at d clock (raise e) = (raise e, record d { clock = clock })

abbrev pub beat_at : DualServer → Raises FakeClock → Raises Json × DualServer
beat_at d (ok clock) = issue_at d clock (issue d.issuer clock.wall)
beat_at d (raise e) = (raise e, d)

unfoldable pub beat : DualServer → Raises Json × DualServer
unfolding advance
beat d = beat_at d (advance d.clock (pos 1000000))

module _ (p : Platform) where
  abbrev pub of_handler : Legacy Json × Server → Result DualError Json × Server
  of_handler (ok v, s) = (ok v, s)
  of_handler (raise e, s) = (raise (of_legacy e), s)

  -- `self.legacy.handle(method, body.get("params"))`: what is false is replaced by an empty mapping,
  -- and `initialize` takes an attribute of the rest that only a mapping has
  unfoldable pub legacy_call : Server → String → Json → Result DualError Json × Server
  legacy_call s method (obj params) = of_handler (handle p s method params)
  legacy_call s method v =
      if truthy v && (method == initialize && is_created s.state)
      then (raise no_attribute, s)
      else of_handler (handle p s method end)

  abbrev pub of_call : Call Json → Result DualError Json
  of_call (ok v) = ok v
  of_call (raise e) = raise (of_current e)

  -- `_serve_current`
  abbrev pub discover_result : Call Json
  discover_result = do
    fields ←
        build_discover_result p
          (field "name" (str "dual-era-conformance") (field "version" (str "0.1.0") end))
          (some default_capability) end none true
    ok (obj fields)

  unfoldable pub serve_current : DualServer → String → Call Json
  serve_current d method =
      if method == discover_method
      then discover_result
      else if method == read_resource_method
      then ok (obj (field "document" (obj (to_dict p d.current)) end))
      else raise (builtin (key_error method))

  -- a refusal of `route`, recorded or not
  abbrev pub refuse_with :
      DualServer → Json → Raised → Option AdapterError → Result DualError Json × DualServer
  refuse_with d method e none = (raise (of_current e), d)
  refuse_with d method e (some a) =
      (raise (of_current e), record d { refusals = d.refusals ++ (show p method, a) ∷ [] })

  abbrev pub dispatch_era : DualServer → String → Json → Era → Result DualError Json × DualServer
  dispatch_era d method params current_era = (
    of_call (serve_current d method),
    record d { mutations = d.mutations ++ append "current:" method ∷ [] },
  )
  dispatch_era d method params handshake_era =
      let (answer, session) = legacy_call d.legacy method params in
      (
        answer,
        record d { legacy = session; mutations = d.mutations ++ append "legacy:" method ∷ [] },
      )

  abbrev pub serve_routed : DualServer → Fields → Call EraRoute → Result DualError Json × DualServer
  serve_routed d body (ok r) = dispatch_era d (show p (get "method" body)) (get "params" body) r.era
  serve_routed d body (raise e) = refuse_with d (get "method" body) e (recorded e)

  -- `serve`
  unfoldable pub serve_dual : DualServer → Fields → Headers → Result DualError Json × DualServer
  serve_dual d body headers = serve_routed d body (route p body headers)

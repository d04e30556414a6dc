-- ===== src/Current/Era.antt =====
-- src/mcp_heartbeat_current/era.py: which era a message belongs to, or a refusal.
pub mod Routing
use mcp_heartbeat.Prelude.{
  Bool, List, Option, String, [], contains, false, if◌then◌else◌, none, not, ok, raise, raise_if,
  some, true, ◌&&◌, ◌>>=◌, ◌>>◌, ◌||◌, ◌∷◌,
}
use mcp_heartbeat.Json.{
  Fields, Items, Json, arr, cons, get, has, has_text, is_text, members, nil, non_empty_text, obj,
  str,
}
use mcp_heartbeat.Platform.{Platform}
use mcp_heartbeat.Core.Errors.{type_error}
use mcp_heartbeat.Core.Model.{show_text}
use mcp_heartbeat.Current.Contract.{
  handshake_methods, handshake_versions, ignored_legacy_headers, modern_versions,
  protocol_version_key,
}
use mcp_heartbeat.Current.Failures.{Call, adapter, builtin, cross_era, forbidden_primitive}
use mcp_heartbeat.Current.Metadata.{Headers, ModernRoute, classify_request, present_headers}
use Prim.Native.String.{◌++◌ as append}

abbrev pub legacy_only_methods : List String
legacy_only_methods = "initialize" ∷ "notifications/initialized" ∷ "resources/subscribe" ∷ []

pub data Era : Type 0 where
  current_era handshake_era : Era

pub record EraRoute : Type 0 where
  pub era : Era
  pub method : String
  pub protocol_version : Option String
  pub evidence : List String
  pub modern : Option ModernRoute

unfoldable pub has_modern_envelope : Fields → Bool
has_modern_envelope body =
    has protocol_version_key (members (get "_meta" (members (get "params" body))))

-- `value in texts`, for a tuple of texts
abbrev pub is_one_of : Json → List String → Bool
is_one_of v [] = false
is_one_of v (t ∷ ts) = is_text v t || is_one_of v ts

unfoldable pub is_handshake_method : Fields → Bool
is_handshake_method body = is_one_of (get "method" body) handshake_methods

abbrev pub confusion : {A : Type 0} → Call A
confusion = raise (adapter cross_era)

-- `version if isinstance(version, str) else None`
abbrev pub text_or_none : Json → Option String
text_or_none (str s) = some s
text_or_none _ = none

-- `_proposed_handshake_version`
unfoldable pub proposed_version : Fields → Option String
proposed_version body = text_or_none (get "protocolVersion" (members (get "params" body)))

-- `proposed is not None and is_modern(proposed)`
abbrev pub proposes_modern : Option String → Bool
proposes_modern none = false
proposes_modern (some v) = contains v modern_versions

unfoldable pub refuse_on_current_path : Fields → Call (Unit {0})
refuse_on_current_path body =
    raise_if (is_one_of (get "method" body) legacy_only_methods) (adapter forbidden_primitive)

-- a value that a Python set takes: lists and objects are not hashable
abbrev pub is_hashable : Json → Bool
is_hashable (arr xs) = false
is_hashable (obj fs) = false
is_hashable _ = true

abbrev pub all_hashable : Items → Bool
all_hashable nil = true
all_hashable (cons v vs) = is_hashable v && all_hashable vs

-- `offered & set(texts)`
abbrev pub offers_any : List String → Items → Bool
offers_any [] offered = false
offers_any (t ∷ ts) offered = has_text t offered || offers_any ts offered

unfoldable pub downgrade_refused : Json → Call Bool
downgrade_refused (arr offered) =
    if all_hashable offered
    then ok (not (offers_any modern_versions offered) && offers_any handshake_versions offered)
    else raise (builtin type_error)
downgrade_refused _ = ok true

module _ (p : Platform) where
  abbrev pub current_route : String → ModernRoute → EraRoute
  current_route method modern = record {
    era = current_era;
    method = method;
    protocol_version = some modern.protocol_version;
    evidence =
        append "_meta[io.modelcontextprotocol/protocolVersion]=" modern.protocol_version ∷ [];
    modern = some modern;
  }

  abbrev pub handshake_route : String → Option String → EraRoute
  handshake_route method proposed = record {
    era = handshake_era;
    method = method;
    protocol_version = proposed;
    evidence = append "method=" method ∷ append "params.protocolVersion=" (show_text proposed) ∷ [];
    modern = none;
  }

  -- a message with a modern envelope
  abbrev pub route_modern : Fields → Headers → String → Call EraRoute
  route_modern body headers method =
      if contains method legacy_only_methods
      then confusion
      else classify_request p body headers modern_versions >>= λ modern.
          ok (current_route method modern)

  abbrev pub route_handshake : String → Option String → Call EraRoute
  route_handshake method proposed =
      if proposes_modern proposed then confusion else ok (handshake_route method proposed)

  -- a message with a method
  abbrev pub route_method : Fields → Headers → String → Call EraRoute
  route_method body headers method =
      if has_modern_envelope body && is_handshake_method body
      then confusion
      else if has_modern_envelope body
      then route_modern body headers method
      else if is_handshake_method body
      then route_handshake method (proposed_version body)
      else confusion

  unfoldable pub route : Fields → Headers → Call EraRoute
  unfolding has_modern_envelope is_handshake_method proposed_version
  route body headers = elim (non_empty_text (get "method" body)) [
    | none ↦ confusion
    | some method ↦ route_method body headers method
  ]

  unfoldable pub leaked_legacy_headers : Headers → List String
  leaked_legacy_headers headers = present_headers p ignored_legacy_headers headers

-- ===== src/Legacy/Resources.antt =====
-- src/mcp_heartbeat_legacy/resources.py: addresses and change notifications. Its consumer is
-- Legacy/Consumer.
pub mod Hints
use mcp_heartbeat.Prelude.{
  Bool, List, Option, OptionalText, String, [], false, if◌then◌else◌, nat_eq, none, ok, raise, some,
  true, ◌==◌, ◌>>=◌, ◌||◌, ◌∷◌,
}
use mcp_heartbeat.Json.{Fields, Json, end, field, get, has, optional_text, str}
use mcp_heartbeat.Platform.{Platform}
use mcp_heartbeat.Core.Errors.{Raises}
use mcp_heartbeat.Core.Model.{Heartbeat, digest, is_digest, revision, show_text}
use mcp_heartbeat.Core.Ports.{ChangeHint}
use mcp_heartbeat.Legacy.Failures.{
  JsonRpcCode, Legacy, invalid_params, malformed_hint, method_not_found, protocol_error,
}
use Prim.Native.Char.{code}
use Prim.Native.String.{◌++◌ as append}

abbrev pub standard_updated : String
standard_updated = "notifications/resources/updated"

abbrev pub extended_updated : String
extended_updated = "notifications/experimental/presenceLease/updated"

abbrev pub uri_prefix : String
uri_prefix = "presence://"

-- `f"{URI_SCHEME}://{participant_id}"`
unfoldable pub heartbeat_uri : String → String
heartbeat_uri participant = append uri_prefix participant

-- `text[len(prefix):]`, if the text starts with the prefix
unfoldable pub strip_prefix : String → String → Option String
strip_prefix String.[] s = some s
strip_prefix (String.◌∷◌ c q) String.[] = none
strip_prefix (String.◌∷◌ c q) (String.◌∷◌ d s) =
    if nat_eq (code c) (code d) then strip_prefix q s else none

abbrev pub malformed_hint_error : {A : Type 0} → JsonRpcCode → Legacy A
malformed_hint_error code = raise (protocol_error malformed_hint code)

-- what is left of an address after the prefix
abbrev pub participant_rest : Option String → Legacy String
participant_rest none = malformed_hint_error invalid_params
participant_rest (some rest) = if rest == "" then malformed_hint_error invalid_params else ok rest

unfoldable pub participant_from_uri : Json → Legacy String
unfolding strip_prefix
participant_from_uri (str s) = participant_rest (strip_prefix uri_prefix s)
participant_from_uri _ = malformed_hint_error invalid_params

-- `LegacyHint`
pub record LegacyHint : Type 0 where
  pub address : String
  pub method : String
  pub revision : OptionalText
  pub digest : OptionalText
  pub overloaded_standard_method : Bool

unfoldable pub carries_metadata : LegacyHint → Bool
carries_metadata h = elim h.revision [
  | none ↦ false
  | some r ↦ elim h.digest [ none ↦ false | some d ↦ true ]
]

unfoldable pub hint_participant : LegacyHint → Legacy String
unfolding participant_from_uri
hint_participant h = participant_from_uri (str h.address)

unfoldable pub to_core_hint : LegacyHint → Legacy ChangeHint
unfolding carries_metadata
to_core_hint h =
    if carries_metadata h
    then ok (record {
      address = str h.address;
      revision = optional_text h.revision;
      digest = optional_text h.digest;
    })
    else malformed_hint_error invalid_params

-- `address = params.get("uri")`, once `participant_from_uri` has let it through
abbrev pub address_in : Json → Legacy String
address_in (str s) = participant_from_uri (str s) >>= λ participant. ok s
address_in v = participant_from_uri v

abbrev pub standard_hint : Json → String → Bool → Legacy LegacyHint
standard_hint address method overloaded = do
  uri ← address_in address
  ok (record {
    address = uri;
    method = method;
    revision = none;
    digest = none;
    overloaded_standard_method = overloaded;
  })

-- `isinstance(revision, str) and revision`
abbrev pub text_in : Json → Legacy String
text_in (str s) = if s == "" then malformed_hint_error invalid_params else ok s
text_in _ = malformed_hint_error invalid_params

abbrev pub digest_in : Json → Legacy String
digest_in (str s) = if is_digest (str s) then ok s else malformed_hint_error invalid_params
digest_in _ = malformed_hint_error invalid_params

abbrev pub extended_hint : Json → Json → Json → String → Legacy LegacyHint
extended_hint address revision digest method = do
  uri ← address_in address
  r ← text_in revision
  d ← digest_in digest
  ok (record {
    address = uri;
    method = method;
    revision = some r;
    digest = some d;
    overloaded_standard_method = false;
  })

unfoldable pub parse_updated : String → Fields → Legacy LegacyHint
unfolding participant_from_uri is_digest
parse_updated method params =
    if method == standard_updated
    then standard_hint (get "uri" params) method (has "revision" params || has "digest" params)
    else if method == extended_updated
    then extended_hint (get "uri" params) (get "revision" params) (get "digest" params) method
    else malformed_hint_error method_not_found

module _ (p : Platform) where
  -- The notifications for a new revision: a method and its parameters each.
  unfoldable pub updated_notifications : Heartbeat → Bool → Raises (List (String × Fields))
  unfolding heartbeat_uri
  updated_notifications h extended =
      let address = heartbeat_uri (show_text h.node_id) in
      let standard : String × Fields = (standard_updated, field "uri" (str address) end) in
      if extended
      then (digest p h >>= λ d. ok (
          standard
          ∷ (
            extended_updated,
            field "uri" (str address)
                (field "revision" (str (revision p h)) (field "digest" (str d) end)),
          )
          ∷ []))
      else ok (standard ∷ [])

-- ===== src/Core/Ports.antt =====
-- Change hints, `ChangeHint` of src/mcp_heartbeat/ports.py. The other ports are protocols.
pub mod Announcing
use mcp_heartbeat.Prelude.{
  Bool, List, String, [], false, if◌then◌else◌, ok, raise, ◌++◌, ◌>>=◌, ◌∷◌,
}
use mcp_heartbeat.Json.{Fields, Json, end, field, get, has, is_text, str}
use mcp_heartbeat.Platform.{Platform}
use mcp_heartbeat.Core.Errors.{
  Raises, Violation, bad_hint_digest, heartbeat_error, invalid_heartbeat, missing_hint_field,
}
use mcp_heartbeat.Core.Model.{Heartbeat, digest, is_digest, revision}

-- `from_dict` does not check the address and the revision: they are whatever the payload holds.
pub record ChangeHint : Type 0 where
  pub address : Json
  pub revision : Json
  pub digest : Json

unfoldable pub hint_to_dict : ChangeHint → Fields
hint_to_dict c =
    field "address" c.address (field "revision" c.revision (field "digest" c.digest end))

unfoldable pub missing_hint_fields : List String → Fields → List Violation
missing_hint_fields [] raw = []
missing_hint_fields (k ∷ ks) raw =
    (if has k raw then [] else missing_hint_field k ∷ []) ++ missing_hint_fields ks raw

abbrev hint_of : Fields → List Violation → Raises ChangeHint
hint_of raw (v ∷ vs) = raise (heartbeat_error (invalid_heartbeat (v ∷ vs)))
hint_of raw [] =
    if is_digest (get "digest" raw)
    then ok (record {
      address = get "address" raw;
      revision = get "revision" raw;
      digest = get "digest" raw;
    })
    else raise (heartbeat_error (invalid_heartbeat (bad_hint_digest ∷ [])))

unfoldable pub hint_from_dict : Fields → Raises ChangeHint
unfolding missing_hint_fields is_digest
hint_from_dict raw = hint_of raw (missing_hint_fields ("address" ∷ "revision" ∷ "digest" ∷ []) raw)

module _ (p : Platform) where
  unfoldable pub for_heartbeat : Heartbeat → String → Raises ChangeHint
  for_heartbeat h address = do
    d ← digest p h
    ok (record { address = str address; revision = str (revision p h); digest = str d })

  unfoldable pub matches : ChangeHint → Heartbeat → Raises Bool
  matches c h =
      if is_text c.revision (revision p h)
      then (digest p h >>= λ d. ok (is_text c.digest d))
      else ok false

-- ===== src/Legacy/Capabilities.antt =====
-- src/mcp_heartbeat_legacy/capabilities.py: what is advertised against what is served.
use mcp_heartbeat.Prelude.{
  Bool, List, String, [], arith, contains, if◌then◌else◌, not, ◌&&◌, ◌++◌, ◌∷◌, ◌≡◌,
}
use mcp_heartbeat.Json.{
  Fields, Json, bool, end, field, get, has, is_mapping, members, obj, str, truthy,
}
use mcp_heartbeat.Core.Model.{extension_version}
use mcp_heartbeat.Legacy.Negotiation.{
  heartbeat_capability, heartbeat_namespace, modern_extension_id,
}

abbrev pub read_method : String
read_method = "resources/read"

abbrev pub subscribe_method : String
subscribe_method = "resources/subscribe"

abbrev pub list_changed_method : String
list_changed_method = "notifications/resources/list_changed"

-- `{"presenceLease": {"extension_version": "0.1"}}`
abbrev pub lease_capability : Json
lease_capability =
    obj
      (field heartbeat_capability (obj (field "extension_version" (str extension_version) end)) end)

unfoldable pub advertise : List String → Fields
advertise served =
    field "resources"
      (obj (
        field "subscribe" (bool (contains subscribe_method served))
          (field "listChanged" (bool (contains list_changed_method served)) end)))
      (if contains read_method served then field heartbeat_namespace lease_capability end else end)

-- The messages of `agreement_violations`, by the flag and the method that they name.
pub data Mismatch : Type 0 where
  bad_resources lease_without_read modern_identifier : Mismatch
  unserved unadvertised : String → String → Mismatch

abbrev pub compare_flag : String → String → Bool → Bool → List Mismatch
compare_flag flag method claimed present =
    if claimed && not present
    then unserved flag method ∷ []
    else if present && not claimed
    then unadvertised flag method ∷ []
    else []

abbrev flags : Fields → List String → List Mismatch
flags resources served =
    compare_flag "subscribe" subscribe_method (truthy (get "subscribe" resources))
      (contains subscribe_method served)
    ++ compare_flag "listChanged" list_changed_method (truthy (get "listChanged" resources))
        (contains list_changed_method served)

abbrev mismatch_if : Bool → Mismatch → List Mismatch
mismatch_if b m = if b then m ∷ [] else []

unfoldable pub agreement_violations : Fields → List String → List Mismatch
agreement_violations advertised served =
    let resources = get "resources" advertised in
    if truthy resources && not (is_mapping resources)
    then bad_resources ∷ []
    else flags (members resources) served
      ++ (mismatch_if
            (has heartbeat_capability (members (get heartbeat_namespace advertised))
              && not (contains read_method served))
            lease_without_read
          ++ mismatch_if (has modern_extension_id (members (get "extensions" advertised)))
              modern_identifier)

-- For every set of served methods, `agreement_violations` finds no mismatch between what
-- `advertise` says of the set and the set.
advertise-agrees : (served : List String) → agreement_violations (advertise served) served ≡ []
unfolding agreement_violations advertise
advertise-agrees served = ground arith

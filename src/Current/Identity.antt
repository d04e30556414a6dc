-- ===== src/Current/Identity.antt =====
-- src/mcp_heartbeat_current/identity.py: a claimed participant against the principal of one request.
pub mod Permits
pub mod Compact
use mcp_heartbeat.Prelude.{
  Bool, List, Option, OptionalText, String, [], contains, false, if◌then◌else◌, none, not, ok,
  raise, some, true, ◌==◌, ◌||◌, ◌∷◌,
}
use mcp_heartbeat.Json.{arr, cons, nil, optional_text}
use mcp_heartbeat.Platform.{Platform}
use mcp_heartbeat.Core.Model.{IdentityBinding, bound, unbound, unverified}
use mcp_heartbeat.Current.Failures.{Adapter, identity_unbound}

pub record Principal : Type 0 where
  pub client_id : OptionalText
  pub issuer : OptionalText
  pub subject : OptionalText

-- the truth value of a text or None
abbrev pub presented : OptionalText → Bool
presented none = false
presented (some s) = not (s == "")

unfoldable pub is_empty : Principal → Bool
is_empty q = not (presented q.client_id || presented q.issuer || presented q.subject)

-- `permits`: True, False, or None where the deployment has no opinion
abbrev pub Policy : Type 0
Policy = Principal → String → Option Bool

pub record ResponseBinding : Type 0 where
  pub binding : IdentityBinding
  pub participant_id : String
  pub principal_fingerprint : OptionalText
  pub reason : OptionalText

abbrev pub is_bound : IdentityBinding → Bool
is_bound bound = true
is_bound _ = false

-- the property `authoritative`
unfoldable pub authoritative : ResponseBinding → Bool
authoritative b = is_bound b.binding

-- `RequestIdentityBinder`
pub record Binder : Type 0 where
  pub policy : Policy
  pub principal : Option Principal

abbrev pub no_evidence : String → ResponseBinding
no_evidence participant = record {
  binding = unverified;
  participant_id = participant;
  principal_fingerprint = none;
  reason = some "no_principal_evidence";
}

-- the three answers of the policy
abbrev pub judged : String → String → Option Bool → ResponseBinding
judged participant fingerprint (some true) = record {
  binding = bound;
  participant_id = participant;
  principal_fingerprint = some fingerprint;
  reason = none;
}
judged participant fingerprint (some false) = record {
  binding = unbound;
  participant_id = participant;
  principal_fingerprint = some fingerprint;
  reason = some "principal_not_permitted";
}
judged participant fingerprint none = record {
  binding = unbound;
  participant_id = participant;
  principal_fingerprint = some fingerprint;
  reason = some "no_policy_for_principal";
}

module _ (p : Platform) where
  unfoldable pub compact : Principal → String
  compact q = p.dumps_ascii (
      arr (
        cons (optional_text q.client_id)
          (cons (optional_text q.issuer) (cons (optional_text q.subject) nil))))

  unfoldable pub evaluate : Binder → String → ResponseBinding
  evaluate b participant = elim b.principal [
    | none ↦ no_evidence participant
    | some q ↦
        if is_empty q
        then no_evidence participant
        else judged participant (compact q) (b.policy q participant)
  ]

  -- `bind`, of the participant that a claim names
  abbrev pub bind_participant : Binder → String → IdentityBinding
  bind_participant b participant = (evaluate b participant).binding

  -- `StaticPermittedParticipants.permits`
  unfoldable pub static_permits : List (String × List String) → Policy
  unfolding compact
  static_permits [] q participant = none
  static_permits ((key, allowed) ∷ rest) q participant =
      if key == compact q
      then some (contains participant allowed)
      else static_permits rest q participant

unfoldable pub enforce : ResponseBinding → Adapter ResponseBinding
enforce b = elim b.binding [ unbound ↦ raise identity_unbound | _ ↦ ok b ]

-- ===== src/Legacy/Identity.antt =====
-- src/mcp_heartbeat_legacy/identity.py: a claimed participant against the principal of the session.
pub mod CrossEra
use mcp_heartbeat.Prelude.{
  Bool, List, Option, OptionalText, String, [], contains, false, if◌then◌else◌, none, some, true,
  ◌==◌, ◌∷◌,
}
use mcp_heartbeat.Json.{optional_text, str}
use mcp_heartbeat.Platform.{Platform}
use mcp_heartbeat.Core.Model.{IdentityBinding, IdentityClaim, bound, unbound, unverified}
use Prim.Native.String.{◌++◌ as append}

-- `LegacySessionAuthContext`
pub record AuthContext : Type 0 where
  pub principal : OptionalText
  pub source : String

-- the property `authenticated`
unfoldable pub session_authenticated : AuthContext → Bool
session_authenticated c = elim c.principal [ none ↦ false | some s ↦ true ]

-- What the deployment injects: a mapping of principals, or a predicate.
pub data Permitted : Type 0 where
  mapping : List (String × List String) → Permitted
  predicate : (String → OptionalText → Bool) → Permitted

-- `IdentityBindingEvidence`
pub record Evidence : Type 0 where
  pub binding : IdentityBinding
  pub participant_id : OptionalText
  pub principal : OptionalText
  pub context_source : String
  pub detail : String
  pub reason : OptionalText

-- `LegacySessionIdentityBinder`
pub record SessionBinder : Type 0 where
  pub context : AuthContext
  pub permitted : Permitted

-- `mapping.get(principal)`
abbrev pub allowed_for : String → List (String × List String) → Option (List String)
allowed_for principal [] = none
allowed_for principal ((key, allowed) ∷ rest) =
    if key == principal then some allowed else allowed_for principal rest

-- `participant_id in names`, where None is no name
abbrev pub named : OptionalText → List String → Bool
named none names = false
named (some s) names = contains s names

-- `participant_id in (mapping.get(principal) or ())`
abbrev pub in_allowed : OptionalText → Option (List String) → Bool
in_allowed participant none = false
in_allowed participant (some allowed) = named participant allowed

unfoldable pub is_permitted : Permitted → String → OptionalText → Bool
is_permitted (mapping m) principal participant = in_allowed participant (allowed_for principal m)
is_permitted (predicate f) principal participant = f principal participant

abbrev pub refusal_for : Option (List String) → String
refusal_for none = "no_policy_for_principal"
refusal_for (some allowed) = "principal_not_permitted"

unfoldable pub refusal_reason : Permitted → String → String
refusal_reason (mapping m) principal = refusal_for (allowed_for principal m)
refusal_reason (predicate f) principal = "principal_not_permitted"

abbrev pub unverified_because : OptionalText → String → String → String → Evidence
unverified_because participant source detail reason = record {
  binding = unverified;
  participant_id = participant;
  principal = none;
  context_source = source;
  detail = detail;
  reason = some reason;
}

-- The evidence of a deployment that injected no binder.
unfoldable pub unverified_evidence : OptionalText → Evidence
unverified_evidence participant =
    unverified_because participant "none"
      "no identity binder was injected; binding is unverified by construction" "no_binder_injected"

module _ (p : Platform) where
  -- `f"session principal {principal!r} (via {source}) "`
  abbrev session_principal : String → String → String
  session_principal principal source =
      append "session principal "
        (append (p.repr (str principal)) (append " (via " (append source ") ")))

  abbrev bound_evidence : String → String → OptionalText → Evidence
  bound_evidence source principal participant = record {
    binding = bound;
    participant_id = participant;
    principal = some principal;
    context_source = source;
    detail = append (session_principal principal source) (
        append "may publish "
          (append (p.repr (optional_text participant)) " per the injected mapping"));
    reason = none;
  }

  abbrev unbound_evidence : String → String → OptionalText → String → Evidence
  unbound_evidence source principal participant reason = record {
    binding = unbound;
    participant_id = participant;
    principal = some principal;
    context_source = source;
    detail = append (session_principal principal source) (
        append "is " (
          append
            (if reason == "no_policy_for_principal"
              then "not covered by the injected mapping"
              else append "not permitted to publish " (p.repr (optional_text participant)))
            "; refusing"));
    reason = some reason;
  }

  unfoldable pub evidence : SessionBinder → IdentityClaim → Evidence
  unfolding is_permitted refusal_reason
  evidence b claim = elim b.context.principal [
    | none ↦
        unverified_because claim.participant_id b.context.source
          "the legacy session carries no authenticated principal; the claim is unchecked, not disproved"
          "no_principal_evidence"
    | some principal ↦
        if is_permitted b.permitted principal claim.participant_id
        then bound_evidence b.context.source principal claim.participant_id
        else unbound_evidence b.context.source principal claim.participant_id
            (refusal_reason b.permitted principal)
  ]

  -- The facet alone, the `IdentityBinder` port.
  unfoldable pub bind : SessionBinder → IdentityClaim → IdentityBinding
  unfolding evidence
  bind b claim = (evidence b claim).binding

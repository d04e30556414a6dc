-- ===== src/Legacy/Identity/CrossEra.antt =====
-- The session binder of the legacy adapter against the request binder of the current one.
use mcp_heartbeat.Prelude.{
  List, Option, OptionalText, String, [], ap, arith, contains, if◌then◌else◌, none, refl, some, ◌∷◌,
  ◌≡◌,
}
use mcp_heartbeat.Json.{get, optional_text, str}
use mcp_heartbeat.Platform.{Platform}
use mcp_heartbeat.Core.Model.{IdentityBinding}
use mcp_heartbeat.Current.Identity.{Principal, compact, evaluate, is_empty, static_permits}
use mcp_heartbeat.Current.Rendering.{binding_to_dict, binding_value}
use mcp_heartbeat.Legacy.Identity.{allowed_for, evidence, mapping}
use mcp_heartbeat.Legacy.Rendering.{evidence_to_dict}

module _ (p : Platform) where
  -- the principal of a session whose requests carry `q`
  abbrev pub session_principal_of : Option Principal → OptionalText
  session_principal_of none = none
  session_principal_of (some q) = if is_empty q then none else some (compact p q)

  static_permits_lem :
      (table : List (String × List String)) (q : Principal) (participant : String)
      → static_permits p table q participant ≡ (elim (allowed_for (compact p q) table) [
        | none ↦ none
        | some allowed ↦ some (contains participant allowed)
      ])
  unfolding static_permits
  static_permits_lem [] q participant = refl
  static_permits_lem ((key, allowed) ∷ rest) q participant =
      ground (arith, static_permits_lem rest q participant)

  -- For a table of permitted participants, a session whose principal is the compact form of
  -- the principal of a request, or none where that is missing or empty, and any participant:
  -- the evidence of the legacy binder and the binding of the current one have the same facet,
  -- reason, principal and participant.
  pub evidence-evaluate :
      (table : List (String × List String)) (q : Option Principal) (source participant : String)
      (epoch : OptionalText) (facet : IdentityBinding)
      → let e =
          evidence p
            (record {
              context = record { principal = session_principal_of q; source = source };
              permitted = mapping table;
            })
            (record { participant_id = some participant; epoch_id = epoch; binding = facet }) in
        let r =
          evaluate p (record { policy = static_permits p table; principal = q }) participant in
        (e.binding ≡ r.binding)
        × (e.reason ≡ r.reason)
        × (e.principal ≡ r.principal_fingerprint)
        × (e.participant_id ≡ some r.participant_id)
  unfolding evidence evaluate
  evidence-evaluate table none source participant epoch facet = (refl, refl, refl, refl)
  evidence-evaluate table (some q) source participant epoch facet =
      ground (arith, static_permits_lem table q participant)

  -- What the two eras report of them agrees too, under the names that both use.
  evidence_to_dict-binding_to_dict :
      (table : List (String × List String)) (q : Option Principal) (source participant : String)
      (epoch : OptionalText) (facet : IdentityBinding)
      → let e = evidence_to_dict (
          evidence p
            (record {
              context = record { principal = session_principal_of q; source = source };
              permitted = mapping table;
            })
            (record { participant_id = some participant; epoch_id = epoch; binding = facet })) in
        let r =
          binding_to_dict
            (evaluate p (record { policy = static_permits p table; principal = q }) participant) in
        (get "identity_binding" e ≡ get "identity_binding" r)
        × (get "reason" e ≡ get "reason" r)
        × (get "participant_id" e ≡ get "participant_id" r)
  unfolding evidence_to_dict binding_to_dict
  evidence_to_dict-binding_to_dict table q source participant epoch facet =
      let (facets, reasons, principals, participants) =
        evidence-evaluate table q source participant epoch facet in
      (
        ap (λ (b : IdentityBinding). str (binding_value b)) facets,
        ap optional_text reasons,
        ap optional_text participants,
      )

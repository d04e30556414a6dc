-- ===== src/Current/Identity/Permits.antt =====
-- When src/mcp_heartbeat_current/identity.py binds a participant to a principal.
use mcp_heartbeat.Prelude.{
  Bool-cases, List, Option, Option-cases, String, [], arith, contains, eq_iff, false, inl, inr,
  some, true, ◌==◌, ◌↔◌, ◌∷◌, ◌≡◌,
}
use mcp_heartbeat.Platform.{Platform}
use mcp_heartbeat.Current.Identity.{
  Binder, Principal, authoritative, compact, evaluate, is_empty, static_permits,
}

-- The first entry for a key lets a participant through.
pub data Grants (key participant : String) : List (String × List String) → Type 0 where
  granted :
      {allowed : List String} {rest : List (String × List String)}
      → contains participant allowed ≡ true
      → Grants key participant ((key, allowed) ∷ rest)
  later :
      {other : String} {allowed : List String} {rest : List (String × List String)}
      → (other == key) ≡ false
      → Grants key participant rest
      → Grants key participant ((other, allowed) ∷ rest)

module _ (p : Platform) where
  static_permits-Grants :
      (table : List (String × List String)) (q : Principal) (participant : String)
      → static_permits p table q participant ≡ some true
      → Grants (compact p q) participant table
  unfolding static_permits
  static_permits-Grants [] q participant h = ground arith
  static_permits-Grants ((key, allowed) ∷ rest) q participant h =
      elim (Bool-cases (key == compact p q)) [
        | inl e ↦ rw (← (eq_iff key (compact p q)).0 e) (granted (ground (arith, e)))
        | inr e ↦ later e (static_permits-Grants rest q participant (ground (arith, e)))
      ]

  -- The binding that `evaluate` returns is authoritative exactly if the request has a
  -- principal, the principal is not empty, and the policy answers True for it and the
  -- participant.
  authoritative_iff :
      (b : Binder) (participant : String)
      → (authoritative (evaluate p b participant) ≡ true) ↔ (
          (q : Principal) × (b.principal ≡ some q)
          × (is_empty q ≡ false)
          × (b.policy q participant ≡ some true))
  unfolding authoritative evaluate
  authoritative_iff b participant = (
    λ h. elim (Option-cases b.principal) [
      | inl e ↦ ground (arith, e)
      | inr (q, e) ↦ (q, e, ground (arith, e), ground (arith, e))
    ],
    λ (q, e, f, g). ground (arith, e, f, g),
  )

  -- When `evaluate` with a table of permitted participants as its policy returns an
  -- authoritative binding, the request has a principal that is not empty and the first entry
  -- of the table for its compact form contains the participant.
  authoritative-Grants :
      (table : List (String × List String)) (principal : Option Principal) (participant : String)
      → authoritative (
          evaluate p
            (record { policy = static_permits p table; principal = principal })
            participant)
        ≡ true
      → (q : Principal) × (principal ≡ some q)
        × (is_empty q ≡ false)
        × Grants (compact p q) participant table
  authoritative-Grants table principal participant h =
      let (q, e, f, g) =
        (authoritative_iff (record { policy = static_permits p table; principal = principal })
            participant).0
          h in
      (q, e, f, static_permits-Grants table q participant g)

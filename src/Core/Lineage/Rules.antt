-- ===== src/Core/Lineage/Rules.antt =====
-- When `admit` accepts, and what it leaves alone.
use mcp_heartbeat.Prelude.{
  Option, arith, false, member, none, ok, refl, same, same_iff, some, true, ℕ, ◌+◌, ◌<◌, ◌≡◌, ◌≢◌,
  ◌≤◌, ◌⊎◌,
}
use mcp_heartbeat.Platform.{Instant, Platform}
use mcp_heartbeat.Core.Lineage.{
  Admission, LineageState, accepted, admit_candidate, admitted, check_freshness, check_lineage,
  hold, is_duplicate,
}
use mcp_heartbeat.Core.Model.{Heartbeat}
use mcp_heartbeat.Prelude.Int.{ℤ, ◌<ℤ◌}

-- Both sequences are there, and the first is below the second.
abbrev pub Below : Option ℤ → Option ℤ → Type 0
Below (some a) (some b) = a <ℤ b
Below _ _ = ⊥

-- A heartbeat opens an epoch that was never seen, or goes on in the held epoch.
abbrev pub Follows : LineageState → Heartbeat → Option Heartbeat → Type 0
Follows s h none = member h.boot_id s.retired_epochs ≡ false
Follows s h (some o) =
    ((h.boot_id ≢ o.boot_id) × (member h.boot_id s.retired_epochs ≡ false))
    ⊎ ((h.boot_id ≡ o.boot_id) × Below o.sequence h.sequence)

-- What the checks ask of a parsed heartbeat before it is held.
pub record Supersedes (s : LineageState) (h : Heartbeat) (now : Instant) (max_skew : ℕ)
    : Type 0 where
  pub participant : h.node_id ≡ some s.participant_id
  pub lineage : Follows s h s.held
  pub not_ahead : h.issued_at ≤ now + max_skew
  pub not_behind : now ≤ h.issued_at + max_skew
  pub fresh : now < h.expires_at

module _ (p : Platform) where
  pub admit_candidate_refusal :
      (s : LineageState) (h : Heartbeat) (now : Instant) (k : ℕ) (a : Admission)
      → admit_candidate p s h now k ≡ ok a
      → accepted a ≡ false
      → a.state ≡ s
  unfolding admit_candidate accepted
  admit_candidate_refusal s h now k a e r = ground arith

  pub admit_candidate_acceptance :
      (s : LineageState) (h : Heartbeat) (now : Instant) (k : ℕ) (a : Admission)
      → admit_candidate p s h now k ≡ ok a
      → accepted a ≡ true
      → a ≡ admitted (hold s h)
  unfolding admit_candidate accepted
  admit_candidate_acceptance s h now k a e r = ground arith

module _ (p : Platform) (s : LineageState) (h : Heartbeat) where
  Follows-of_check :
      (held : Option Heartbeat)
      → s.held ≡ held
      → is_duplicate p s h ≡ ok false
      → check_lineage p s h ≡ ok none
      → Follows s h held
  unfolding check_lineage is_duplicate
  Follows-of_check none e d c = ground arith
  Follows-of_check (some o) e d c = ground (arith, same_iff h.boot_id o.boot_id)

  check_of_Follows :
      (held : Option Heartbeat)
      → s.held ≡ held
      → Follows s h held
      → (is_duplicate p s h ≡ ok false) × (check_lineage p s h ≡ ok none)
  unfolding check_lineage is_duplicate
  check_of_Follows none e f = ground arith
  check_of_Follows (some o) e f = ground (arith, same_iff h.boot_id o.boot_id)

  module _ (now : Instant) (k : ℕ) where
    no_more_checks :
        admit_candidate p s h now k ≡ ok (admitted (hold s h))
        → (is_duplicate p s h ≡ ok false)
          × (check_lineage p s h ≡ ok none)
          × (same h.node_id (some s.participant_id) ≡ true)
    unfolding admit_candidate
    no_more_checks e = ground arith

    pub admit_candidate_sound :
        admit_candidate p s h now k ≡ ok (admitted (hold s h)) → Supersedes s h now k
    unfolding admit_candidate check_freshness
    admit_candidate_sound e = record {
      participant = ground (arith, same_iff h.node_id (some s.participant_id));
      lineage = Follows-of_check s.held refl (no_more_checks e).0 (no_more_checks e).1;
      not_ahead = ground arith;
      not_behind = ground arith;
      fresh = ground arith;
    }

    pub admit_candidate_complete :
        Supersedes s h now k → admit_candidate p s h now k ≡ ok (admitted (hold s h))
    unfolding admit_candidate check_freshness
    admit_candidate_complete v =
        ground (
          arith,
          check_of_Follows s.held refl v.lineage,
          same_iff h.node_id (some s.participant_id),
        )

-- ===== src/Tests/Fleets.antt =====
-- Fleets, attestations and the sign-off, at concrete inputs.
use mcp_heartbeat.Prelude.{
  List, String, [], arith, false, length, nat_eq, none, refl, some, suc, true, zero, ℕ, ◌/◌, ◌↔◌,
  ◌∷◌, ◌≡◌, ◌⊎◌,
}
use mcp_heartbeat.Text.{codes}
use mcp_heartbeat.Conformance.Attestation.{
  Counts, Provenance, attestation_covers, build_record, suite_counts,
}
use mcp_heartbeat.Conformance.Fleet.{
  FleetEvent, beats, fleet_run, new_fleet, pinned_to, refetched, starts, time_passes,
}
use mcp_heartbeat.Conformance.Signoff.{core_size_case}
use mcp_heartbeat.Conformance.Verdicts.{new_case}
use mcp_heartbeat.Core.Lineage.{default_max_skew}
use mcp_heartbeat.Core.Producer.{FakeClock}
use mcp_heartbeat.Current.Convergence.{Settings}
use mcp_heartbeat.Prelude.Int.{pos}
use mcp_heartbeat.Tests.Toy.{new_year, toy}
use mcp_heartbeat.Tools.Order.{Text}
use mcp_heartbeat.Conformance.Attestation.Digest.{
  AttestedFile, Sha256, adapter_digest, attested_stream,
}
use mcp_heartbeat.Conformance.Attestation.Exactness.{MatchesPin, RunPassed, covers-build_record}
use mcp_heartbeat.Conformance.Attestation.Tree.{
  Collides, IsHexLike, adapter_digest-same, has_code_in,
}
use mcp_heartbeat.Conformance.Fleet.Lineage.{FleetIsSound, fleet_run-FleetIsSound}
use mcp_heartbeat.Conformance.Signoff.Budget.{SizeVerdict, core_size_case_lem}

abbrev direct : Settings
direct = record {
  binder_factory = none;
  max_skew = default_max_skew;
  scale = λ w. w / 2;
  max_interval = 60000000;
}

abbrev started_at : FakeClock
started_at = record { wall = new_year; monotonic = 0 }

-- two replicas, and a failover from the first to the second and back
abbrev failover : List FleetEvent
failover =
    starts "epoch-a" "drawn" (pos 30000000)
    ∷ starts "epoch-b" "drawn" (pos 30000000)
    ∷ refetched
    ∷ pinned_to (some 1)
    ∷ time_passes (pos 1000000)
    ∷ beats 1
    ∷ refetched
    ∷ pinned_to (some 0)
    ∷ beats 0
    ∷ refetched
    ∷ []

fleet_run-FleetIsSound_example :
    FleetIsSound (fleet_run toy direct (new_fleet started_at [] (0 ∷ 1 ∷ [])) failover)
fleet_run-FleetIsSound_example = fleet_run-FleetIsSound toy direct started_at (0 ∷ 1 ∷ []) failover

abbrev pinned_run : Provenance
pinned_run = record {
  version = some "2.0.0";
  types_version = some "2.0.0";
  latest_modern_version = "2026-07-28";
  matches_pin = true;
  constants = pos 18;
  grammar_cases = pos 12;
}

abbrev all_passed : Counts
all_passed =
    suite_counts
      ((record { tests = pos 171; failures = pos 0; errors = pos 0; skipped = pos 0 }) ∷ [])

covers-build_record_example :
    (attestation_covers
        (some (build_record pinned_run all_passed "250aaa" "tools/verify_sdk.sh" "2026-08-17"))
        "250aaa"
      ≡ true)
    ↔ ((◌≡◌ {A = String} "250aaa" "250aaa") × MatchesPin pinned_run × RunPassed all_passed)
covers-build_record_example =
    covers-build_record pinned_run all_passed "250aaa" "tools/verify_sdk.sh" "2026-08-17" (λ e. cc)
      (λ e. cc) (λ e. cc) "250aaa"

-- a hash that is the length of what it is given, in letters
abbrev letters : ℕ → Text
letters zero = []
letters (suc n) = b'a' ∷ letters n

abbrev toy_hash : Sha256
toy_hash = record { of_bytes = λ b. letters (length b); of_text = λ s. s }

letters-has_code_in : (d : ℕ) → nat_eq b'a' d ≡ false → (n : ℕ) → has_code_in d (letters n) ≡ false
letters-has_code_in d e zero = refl
letters-has_code_in d e (suc n) = ground (arith, e, letters-has_code_in d e n)

toy_hash-IsHexLike : IsHexLike toy_hash.of_bytes
toy_hash-IsHexLike b =
    (letters-has_code_in b':' refl (length b), letters-has_code_in 10 refl (length b))

abbrev tree : List AttestedFile
tree = (record { relative = codes "src/a.py"; body = 1 ∷ 2 ∷ [] }) ∷ []

abbrev edited : List AttestedFile
edited = (record { relative = codes "src/a.py"; body = 1 ∷ 3 ∷ [] }) ∷ []

adapter_digest-same_example :
    (tree ≡ edited) ⊎ Collides toy_hash.of_bytes ⊎ Collides toy_hash.of_text
unfolding adapter_digest attested_stream
adapter_digest-same_example =
    adapter_digest-same toy_hash toy_hash-IsHexLike tree edited (refl, tt) (refl, tt) refl

abbrev sizes : List ℕ
sizes = 40 ∷ 40 ∷ 60 ∷ 90 ∷ 120 ∷ 70 ∷ []

core_size_case_lem_example :
    (core_size_case toy (new_case "core-size" "The core") sizes none none).verdict
    ≡ SizeVerdict toy 420 none none
core_size_case_lem_example =
    core_size_case_lem toy (new_case "core-size" "The core") sizes none none refl refl

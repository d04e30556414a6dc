-- ===== src/Conformance/Release/Levels.antt =====
-- release.py: the three levels of readiness.
use mcp_heartbeat.Prelude.{List, [], ◌∷◌}
use mcp_heartbeat.Conformance.Release.{
  Criterion, Level, all_matrices, case_passed, criterion, no_failures, no_holds,
  nothing_unsupported,
}

abbrev pub dogfood_criteria : List Criterion
dogfood_criteria =
    criterion "no_cross_era_failures" "No FAIL in the cross-era matrix"
      (no_failures ("cross-era" ∷ []))
    ∷ criterion "no_runtime_failures" "No FAIL in the distributed-runtime matrix"
        (no_failures ("distributed-runtime" ∷ []))
    ∷ criterion "no_identity_failures" "No FAIL in the identity-binding matrix"
        (no_failures ("identity-binding" ∷ []))
    ∷ criterion "no_isolation_failures" "No FAIL in the isolation matrix"
        (no_failures ("isolation" ∷ []))
    ∷ criterion "identity_gates_state"
        "An unbound identity provably cannot move authoritative state"
        (case_passed "identity-binding" "gates-convergence")
    ∷ criterion "package_boundaries_hold" "No package imports outwards or into a host application"
        (case_passed "isolation" "boundaries")
    ∷ []

abbrev pub dogfood : Level
dogfood = record {
  key = "ready_to_dogfood";
  title = "Ready to dogfood";
  means =
      "the originating project may depend on this internally. Nothing is broken; open questions and unproven legs are acceptable because the consumer is the same team that owns the code.";
  criteria = dogfood_criteria;
}

abbrev pub external_review_criteria : List Criterion
external_review_criteria =
    criterion "no_cross_era_failures" "No FAIL in the cross-era matrix"
      (no_failures ("cross-era" ∷ []))
    ∷ criterion "no_runtime_failures" "No FAIL in the distributed-runtime matrix"
        (no_failures ("distributed-runtime" ∷ []))
    ∷ criterion "no_identity_failures" "No FAIL in the identity-binding matrix"
        (no_failures ("identity-binding" ∷ []))
    ∷ criterion "no_isolation_failures" "No FAIL in the isolation matrix"
        (no_failures ("isolation" ∷ []))
    ∷ criterion "no_cleanroom_failures" "No FAIL in the clean-room matrix"
        (no_failures ("clean-room" ∷ []))
    ∷ criterion "no_measurement_failures" "No FAIL in the measurement matrix"
        (no_failures ("measurement" ∷ []))
    ∷ criterion "independent_participant_verified"
        "The clean-room participant's independence is mechanically proven"
        (case_passed "clean-room" "no-link")
    ∷ criterion "two_way_interop_shown" "Each implementation admits the other's documents"
        (case_passed "clean-room" "bidirectional-interop")
    ∷ criterion "overhead_measured"
        "Bandwidth, CPU, and memory are measured against declared thresholds"
        (case_passed "measurement" "bytes")
    ∷ criterion "abuse_resistance_shown" "A hint flood provably does not amplify into a fetch flood"
        (case_passed "measurement" "hint-flood")
    ∷ criterion "evidence_is_sanitized"
        "No source file carries a host path, credential, or private address"
        (case_passed "isolation" "no-leaks")
    ∷ []

abbrev pub external_review : Level
external_review = record {
  key = "ready_for_external_review";
  title = "Ready for external review";
  means =
      "The evidence pack can be handed to a reviewer outside the project. It must be complete, sanitized, and independently rerunnable — but it may still carry open questions, so long as they are stated rather than hidden.";
  criteria = external_review_criteria;
}

abbrev pub publish_criteria : List Criterion
publish_criteria =
    criterion "no_failures_anywhere" "No FAIL in any matrix" (no_failures all_matrices)
    ∷ criterion "no_holds_anywhere" "No HOLD in any matrix: every open question is closed"
        (no_holds all_matrices)
    ∷ criterion "every_declared_leg_was_exercised"
        "No UNSUPPORTED case: nothing is claimed that was not run"
        (nothing_unsupported all_matrices)
    ∷ criterion "official_sdk_leg_proven"
        "The current-era leg ran against the pinned official SDK v2"
        (case_passed "cross-era" "current-current-sdk")
    ∷ criterion "core_within_prd_budget"
        "The portable core is inside the PRD's size budget, or the overrun is signed off"
        (case_passed "isolation" "core-size")
    ∷ criterion "identity_semantics_settled"
        "Both eras give the same observable answer for a policy gap"
        (case_passed "identity-binding" "policy-gap-divergence")
    ∷ criterion "downgrade_confusion_closed"
        "Every message plausible to both eras is refused by both"
        (case_passed "cross-era" "downgrade-confusion")
    ∷ []

abbrev pub publish : Level
publish = record {
  key = "ready_to_publish";
  title = "Ready to publish";
  means =
      "The feature can go out. Every declared leg has actually been exercised and every open question has been closed — an UNSUPPORTED leg means a claim nobody has tested, and a HOLD means a decision nobody has made.";
  criteria = publish_criteria;
}

abbrev pub levels : List Level
levels = dogfood ∷ external_review ∷ publish ∷ []

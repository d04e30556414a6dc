-- ===== src/Tests/Gates.antt =====
-- The gates of the conformance harness, at concrete matrices.
use mcp_heartbeat.Prelude.{List, String, [], length, ◌&&◌, ◌∷◌, ◌≡◌}
use mcp_heartbeat.Conformance.Release.{evaluate_level, no_items, some_passed}
use mcp_heartbeat.Conformance.SharedRuns.{
  IsRun, longest_of_tails, longest_shared_run, longest_shared_run_lem,
}
use mcp_heartbeat.Conformance.Verdicts.{
  Case, MatrixReport, Verdict, new_case, verdict_fail, verdict_pass, verdict_unsupported,
}
use mcp_heartbeat.Current.Convergence.{verdict}
use mcp_heartbeat.Conformance.Release.Levels.{publish}
use mcp_heartbeat.Conformance.Release.Readiness.{publish_ready_lem, sample_matrices}
use mcp_heartbeat.Conformance.Release.Risks.{collect_residual_risks}

abbrev ran : String → String → Verdict → Case
ran case_id title verdict = record (new_case case_id title) { verdict = verdict }

abbrev matrix : String → List Case → MatrixReport
matrix matrix_id cases = record { matrix_id = matrix_id; title = matrix_id; cases = cases }

abbrev eras : MatrixReport
eras = matrix "cross-era" (
    ran "current-current-sdk" "the pinned SDK" verdict_unsupported
    ∷ ran "downgrade-confusion" "refused by both" verdict_pass
    ∷ [])

abbrev quiet : String → MatrixReport
quiet matrix_id = matrix matrix_id (ran "case" "a case" verdict_pass ∷ [])

abbrev isolation : MatrixReport
isolation = matrix "isolation" (ran "core-size" "the size of the core" verdict_fail ∷ [])

publish_ready_lem_example :
    (evaluate_level publish (
      sample_matrices eras
        (quiet "distributed-runtime")
        (quiet "identity-binding")
        (quiet "clean-room")
        (quiet "measurement")
        isolation)).ready
    ≡ (no_items (
          collect_residual_risks (
            sample_matrices eras
              (quiet "distributed-runtime")
              (quiet "identity-binding")
              (quiet "clean-room")
              (quiet "measurement")
              isolation))
        && (some_passed "current-current-sdk" eras.cases
            && (some_passed "core-size" isolation.cases
                && (some_passed "policy-gap-divergence" (quiet "identity-binding").cases
                    && some_passed "downgrade-confusion" eras.cases))))
publish_ready_lem_example =
    publish_ready_lem eras (quiet "distributed-runtime") (quiet "identity-binding")
      (quiet "clean-room") (quiet "measurement") isolation

abbrev transcript : List String
transcript = "alpha" ∷ "beta" ∷ "gamma" ∷ "beta" ∷ []

longest_shared_run_lem_example :
    let (n, best) = longest_shared_run transcript ("gamma" ∷ "beta" ∷ []) in
    (n ≡ length best)
    × (n ≡ longest_of_tails ("gamma" ∷ "beta" ∷ []) transcript)
    × IsRun ("gamma" ∷ "beta" ∷ []) transcript best
longest_shared_run_lem_example = longest_shared_run_lem transcript ("gamma" ∷ "beta" ∷ [])

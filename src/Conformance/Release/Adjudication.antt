-- ===== src/Conformance/Release/Adjudication.antt =====
-- release.py: the report that the adjudication makes.
use mcp_heartbeat.Prelude.{List, String, [], length, ℕ, ◌∷◌}
use mcp_heartbeat.Conformance.Release.{Level, LevelResult, Matrices, evaluate_level}
use mcp_heartbeat.Conformance.Verdicts.{
  MatrixReport, count, verdict_fail, verdict_hold, verdict_pass, verdict_unsupported,
}
use mcp_heartbeat.Conformance.Release.Levels.{levels}
use mcp_heartbeat.Conformance.Release.Risks.{Risk, collect_residual_risks}

pub record Totals : Type 0 where
  pub total : ℕ
  pub passed : ℕ
  pub failed : ℕ
  pub unsupported : ℕ
  pub hold : ℕ

-- the totals of `MatrixReport.to_dict`
abbrev pub totals : MatrixReport → Totals
totals r = record {
  total = length r.cases;
  passed = count r verdict_pass;
  failed = count r verdict_fail;
  unsupported = count r verdict_unsupported;
  hold = count r verdict_hold;
}

pub record ReleaseReport : Type 0 where
  pub levels : List LevelResult
  pub residual_risks : List Risk
  pub matrices : List (String × Totals)

unfoldable pub evaluate_levels : List Level → Matrices → List LevelResult
evaluate_levels [] matrices = []
evaluate_levels (l ∷ ls) matrices = evaluate_level l matrices ∷ evaluate_levels ls matrices

unfoldable pub totals_of : Matrices → List (String × Totals)
totals_of [] = []
totals_of ((mid, r) ∷ rest) = (mid, totals r) ∷ totals_of rest

abbrev pub adjudicate : Matrices → ReleaseReport
adjudicate matrices = record {
  levels = evaluate_levels levels matrices;
  residual_risks = collect_residual_risks matrices;
  matrices = totals_of matrices;
}

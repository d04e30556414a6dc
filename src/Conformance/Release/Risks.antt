-- ===== src/Conformance/Release/Risks.antt =====
-- release.py: the risks that remain, the worst first.
use mcp_heartbeat.Prelude.{
  Bool, List, Option, String, [], if◌then◌else◌, ltb, nat_eq, none, some, ℕ, ◌&&◌, ◌++◌, ◌==◌, ◌||◌,
  ◌∷◌,
}
use mcp_heartbeat.Conformance.Release.{Matrices, sorted, text_below}
use mcp_heartbeat.Conformance.Verdicts.{
  Case, Verdict, verdict_fail, verdict_hold, verdict_pass, verdict_unsupported,
}

pub data Severity : Type 0 where
  blocking : Severity
  decision_required : Severity
  unproven : Severity

unfoldable pub severity_of : Verdict → Option Severity
severity_of verdict_pass = none
severity_of verdict_fail = some blocking
severity_of verdict_hold = some decision_required
severity_of verdict_unsupported = some unproven

unfoldable pub severity_rank : Severity → ℕ
severity_rank blocking = 0
severity_rank decision_required = 1
severity_rank unproven = 2

pub record Risk : Type 0 where
  pub matrix : String
  pub case : String
  pub title : String
  pub verdict : Verdict
  pub severity : Severity
  pub detail : String

-- `text or otherwise`
unfoldable pub text_or : Option String → String → String
text_or none otherwise = otherwise
text_or (some s) otherwise = if s == "" then otherwise else s

unfoldable pub risks_in : String → List Case → List Risk
risks_in matrix_id [] = []
risks_in matrix_id (c ∷ cs) = elim (severity_of c.verdict) [
  | none ↦ risks_in matrix_id cs
  | some severity ↦
      record {
        matrix = matrix_id;
        case = c.case_id;
        title = c.title;
        verdict = c.verdict;
        severity = severity;
        detail = text_or c.reason (text_or c.error "see the case's failed checks");
      }
      ∷ risks_in matrix_id cs
]

unfoldable pub risks_of : Matrices → List Risk
risks_of [] = []
risks_of ((matrix_id, r) ∷ rest) = risks_in matrix_id r.cases ++ risks_of rest

-- the order of the keys `(order[severity], matrix, case)`
abbrev pub risk_below : Risk → Risk → Bool
risk_below a b =
    let by_case = text_below a.case b.case in
    let by_matrix = text_below a.matrix b.matrix || a.matrix == b.matrix && by_case in
    ltb (severity_rank a.severity) (severity_rank b.severity)
    || nat_eq (severity_rank a.severity) (severity_rank b.severity) && by_matrix

abbrev pub collect_residual_risks : Matrices → List Risk
collect_residual_risks matrices = sorted risk_below (risks_of matrices)

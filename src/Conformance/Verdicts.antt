-- ===== src/Conformance/Verdicts.antt =====
-- verdicts.py: the verdict of a case, and how a matrix adds the verdicts up.
pub mod Totals
use mcp_heartbeat.Prelude.{
  Bool, List, Option, String, [], false, if◌then◌else◌, none, not, some, true, ℕ, ◌&&◌, ◌++◌, ◌+◌,
  ◌∷◌,
}
use mcp_heartbeat.Json.{Fields, Json, end}

pub data Verdict : Type 0 where
  verdict_pass : Verdict
  verdict_fail : Verdict
  verdict_unsupported : Verdict
  verdict_hold : Verdict

unfoldable pub same_verdict : Verdict → Verdict → Bool
same_verdict verdict_pass verdict_pass = true
same_verdict verdict_fail verdict_fail = true
same_verdict verdict_unsupported verdict_unsupported = true
same_verdict verdict_hold verdict_hold = true
same_verdict _ _ = false

-- `verdict in CLEARING_VERDICTS`
unfoldable pub clearing : Verdict → Bool
clearing verdict_pass = true
clearing verdict_fail = false
clearing verdict_unsupported = true
clearing verdict_hold = false

-- The detail is what `_plain` makes of it.
pub record Check : Type 0 where
  pub name : String
  pub passed : Bool
  pub detail : Json

pub record Case : Type 0 where
  pub case_id : String
  pub title : String
  pub verdict : Verdict
  pub checks : List Check
  pub observations : Fields
  pub reason : Option String
  pub error : Option String

abbrev pub new_case : String → String → Case
new_case case_id title = record {
  case_id = case_id;
  title = title;
  verdict = verdict_pass;
  checks = [];
  observations = end;
  reason = none;
  error = none;
}

unfoldable pub check : Case → String → Bool → Json → Bool × Case
check c name condition detail =
    let checks = c.checks ++ (record { name = name; passed = condition; detail = detail }) ∷ [] in
    (
      condition,
      record c {
        checks = checks;
        verdict =
            if not condition && same_verdict c.verdict verdict_pass
            then verdict_fail
            else c.verdict;
      },
    )

abbrev pub mark_unsupported : Case → String → Case
mark_unsupported c reason = record c { verdict = verdict_unsupported; reason = some reason }

abbrev pub mark_hold : Case → String → Case
mark_hold c reason = record c { verdict = verdict_hold; reason = some reason }

pub record MatrixReport : Type 0 where
  pub matrix_id : String
  pub title : String
  pub cases : List Case

abbrev pub add : MatrixReport → Case → MatrixReport
add r c = record r { cases = r.cases ++ c ∷ [] }

unfoldable pub count_in : Verdict → List Case → ℕ
count_in v [] = 0
count_in v (c ∷ cs) = (if same_verdict c.verdict v then 1 else 0) + count_in v cs

abbrev pub count : MatrixReport → Verdict → ℕ
count r v = count_in v r.cases

unfoldable pub all_clearing : List Case → Bool
all_clearing [] = true
all_clearing (c ∷ cs) = clearing c.verdict && all_clearing cs

-- `MatrixReport.ok`
abbrev pub report_ok : MatrixReport → Bool
report_ok r = all_clearing r.cases

-- The body of a case changes it, and may end with an exception, `some` of its type and message.
abbrev pub Body : Type 0
Body = Case → Case × Option String

unfoldable pub after_body : Case × Option String → Case
after_body (c, none) = c
after_body (c, some what) = record c { verdict = verdict_fail; error = some what }

abbrev pub run_case : String × String × Body → Case
run_case (case_id, title, fn) = after_body (fn (new_case case_id title))

unfoldable pub run_cases : MatrixReport → List (String × String × Body) → MatrixReport
run_cases r [] = r
run_cases r (c ∷ cs) = run_cases (add r (run_case c)) cs

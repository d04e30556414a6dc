-- ===== src/Conformance/Verdicts/Totals.antt =====
-- What a matrix reports of the cases that it ran.
use mcp_heartbeat.Prelude.{
  List, String, [], ap, arith, if◌then◌else◌, length, map, nat_eq, refl, ℕ, ◌&&◌, ◌++◌, ◌+◌, ◌∙◌,
  ◌∷◌, ◌≡◌,
}
use mcp_heartbeat.Conformance.Verdicts.{
  Verdict, Body, Case, MatrixReport, add, all_clearing, clearing, count, count_in, report_ok,
  run_case, run_cases, same_verdict, verdict_fail, verdict_hold, verdict_pass, verdict_unsupported,
}
use mathlib.Core.List.{append-nil, append_assoc}

run_cases_lem :
    (r : MatrixReport) (cs : List (String × String × Body))
    → run_cases r cs ≡ record r { cases = r.cases ++ map run_case cs }
unfolding run_cases
run_cases_lem r [] = rw (append-nil r.cases) refl
run_cases_lem r (c ∷ cs) =
    run_cases_lem (add r (run_case c)) cs
    ∙ ap (λ (xs : List Case). record r { cases = xs })
        (append_assoc r.cases (run_case c ∷ []) (map run_case cs))

abbrev weight : Verdict → Verdict → ℕ
weight v w = if same_verdict v w then 1 else 0

counted_once :
    (v : Verdict)
    → weight v verdict_pass
        + weight v verdict_fail
        + weight v verdict_unsupported
        + weight v verdict_hold
      ≡ 1
unfolding same_verdict
counted_once verdict_pass = refl
counted_once verdict_fail = refl
counted_once verdict_unsupported = refl
counted_once verdict_hold = refl

count_in_total :
    (cs : List Case)
    → count_in verdict_pass cs
        + count_in verdict_fail cs
        + count_in verdict_unsupported cs
        + count_in verdict_hold cs
      ≡ length cs
unfolding count_in
count_in_total [] = refl
count_in_total (c ∷ cs) = omega (arith, counted_once c.verdict, count_in_total cs)

clearing_lem :
    (v : Verdict) (failures holds : ℕ)
    → (clearing v && (nat_eq failures 0 && nat_eq holds 0))
      ≡ (nat_eq (weight v verdict_fail + failures) 0 && nat_eq (weight v verdict_hold + holds) 0)
unfolding same_verdict clearing
clearing_lem verdict_pass failures holds = ground arith
clearing_lem verdict_fail failures holds = ground arith
clearing_lem verdict_unsupported failures holds = ground arith
clearing_lem verdict_hold failures holds = ground arith

all_clearing_lem :
    (cs : List Case)
    → all_clearing cs ≡ (nat_eq (count_in verdict_fail cs) 0 && nat_eq (count_in verdict_hold cs) 0)
unfolding count_in all_clearing
all_clearing_lem [] = refl
all_clearing_lem (c ∷ cs) =
    ap (λ b. clearing c.verdict && b) (all_clearing_lem cs)
    ∙ clearing_lem c.verdict (count_in verdict_fail cs) (count_in verdict_hold cs)

run_cases-totals :
    (r : MatrixReport) (cs : List (String × String × Body))
    → let done = run_cases r cs in
      (done.cases ≡ r.cases ++ map run_case cs)
      × (count done verdict_pass
            + count done verdict_fail
            + count done verdict_unsupported
            + count done verdict_hold
          ≡ length done.cases)
      × (report_ok done
          ≡ (nat_eq (count done verdict_fail) 0 && nat_eq (count done verdict_hold) 0))
run_cases-totals r cs = (
  ap (λ (d : MatrixReport). d.cases) (run_cases_lem r cs),
  count_in_total (run_cases r cs).cases,
  all_clearing_lem (run_cases r cs).cases,
)

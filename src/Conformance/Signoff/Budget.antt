-- ===== src/Conformance/Signoff/Budget.antt =====
-- When the case of the core's size passes, holds and fails.
use mcp_heartbeat.Prelude.{
  Bool, Bool-cases, List, Option, String, arith, false, if◌then◌else◌, inl, inr, leb, length, ltb,
  nat_eq, none, not, refl, some, sum, true, ℕ, ◌&&◌, ◌∙◌, ◌≡◌,
}
use mcp_heartbeat.Json.{Fields, end, field, get, null}
use mcp_heartbeat.Platform.{Platform}
use mcp_heartbeat.Conformance.Signoff.{
  accept_overrun, all_given, core_budget, core_ceiling, core_size_case, doc_exists, equals_number,
  judge_overrun, names_measurement, signed, signoff_covers, signoff_fields,
}
use mcp_heartbeat.Conformance.Verdicts.{
  Case, Verdict, check, mark_hold, same_verdict, verdict_fail, verdict_hold, verdict_pass,
}

-- what the case comes to, from six modules
abbrev pub SizeVerdict : Platform → ℕ → Option String → Option Fields → Verdict
SizeVerdict p measured doc signoff =
    if ltb core_ceiling measured
    then verdict_hold
    else if leb measured core_budget
    then verdict_pass
    else if not (names_measurement p doc measured)
    then verdict_fail
    else if signoff_covers p signoff measured
    then verdict_pass
    else verdict_hold

check-verdict :
    (c : Case) (name : String) (b : Bool)
    → c.verdict ≡ verdict_pass
    → (check c name b null).1.verdict ≡ (if b then verdict_pass else verdict_fail)
unfolding check same_verdict
check-verdict c name b v = ground (arith, v)

check_kept :
    (c : Case) (name : String) (b : Bool)
    → c.verdict ≡ verdict_pass
    → b ≡ true
    → (check c name b null).1.verdict ≡ verdict_pass
check_kept c name b v e = check-verdict c name b v ∙ rw e refl

module _ (p : Platform) where
  accept_overrun-verdict :
      (c : Case) (measured : ℕ) (r : Fields)
      → c.verdict ≡ verdict_pass
      → equals_number p (get "measured_loc" r) measured ≡ true
      → equals_number p (get "prd_budget_loc" r) core_budget ≡ true
      → all_given signoff_fields r ≡ true
      → (ltb core_budget measured && leb measured core_ceiling) ≡ true
      → (accept_overrun p c measured r).verdict ≡ verdict_pass
  accept_overrun-verdict c measured r v m b g x =
      check_kept _ _ _ (check_kept _ _ _ (check_kept _ _ _ (check_kept _ _ _ v m) b) g) x

  covers_parts :
      (r : Option Fields) (measured : ℕ)
      → signoff_covers p r measured ≡ true
      → (equals_number p (get "measured_loc" (signed r)) measured ≡ true)
        × (equals_number p (get "prd_budget_loc" (signed r)) core_budget ≡ true)
        × (all_given signoff_fields (signed r) ≡ true)
  unfolding signoff_covers
  covers_parts none measured e = ground arith
  covers_parts (some end) measured e = ground arith
  covers_parts (some (field k v fs)) measured e =
      (ground (arith, e), ground (arith, e), ground (arith, e))

  documented :
      (c : Case) (measured : ℕ) (doc : Option String) (first second : String)
      → c.verdict ≡ verdict_pass
      → (check
          (check c first (doc_exists doc) null).1
          second
          (names_measurement p doc measured)
          null).1.verdict
        ≡ (if names_measurement p doc measured then verdict_pass else verdict_fail)
  unfolding check same_verdict
  documented c measured none first second v = ground (arith, v)
  documented c measured (some doc) first second v = ground (arith, v)

  picked :
      (c held accepted : Case) (named covered : Bool)
      → c.verdict ≡ (if named then verdict_pass else verdict_fail)
      → held.verdict ≡ verdict_hold
      → (named ≡ true → covered ≡ true → accepted.verdict ≡ verdict_pass)
      → (if not (same_verdict c.verdict verdict_pass)
          then c
          else if not covered
          then held
          else accepted).verdict
        ≡ (if not named then verdict_fail else if covered then verdict_pass else verdict_hold)
  unfolding same_verdict
  picked c held accepted false covered v h a = ground (arith, v)
  picked c held accepted true false v h a = ground (arith, v, h)
  picked c held accepted true true v h a = ground (arith, v, a refl refl)

  judge_overrun-verdict :
      (c : Case) (measured : ℕ) (doc : Option String) (signoff : Option Fields)
      → c.verdict ≡ verdict_pass
      → (ltb core_budget measured && leb measured core_ceiling) ≡ true
      → (judge_overrun p c measured doc signoff).verdict ≡ (
          if not (names_measurement p doc measured)
          then verdict_fail
          else if signoff_covers p signoff measured
          then verdict_pass
          else verdict_hold)
  judge_overrun-verdict c measured doc signoff v x =
      let c1 = (check c "the_overrun_is_documented" (doc_exists doc) null).1 in
      let c2 =
        (check c1 "and_the_document_names_the_current_measurement"
          (names_measurement p doc measured) null).1 in
      let said =
        documented c measured doc "the_overrun_is_documented"
          "and_the_document_names_the_current_measurement" v in
      picked c2 (mark_hold c2 "the documented justification needs operator sign-off")
        (accept_overrun p c2 measured (signed signoff)) (names_measurement p doc measured)
        (signoff_covers p signoff measured) said refl
        (λ n k.
          let (m, b, g) = covers_parts signoff measured k in
          accept_overrun-verdict c2 measured (signed signoff) (said ∙ rw n refl) m b g x)

  sized :
      (over inside : Case) (kept : Case) (measured : ℕ) (v : Verdict)
      → over.verdict ≡ verdict_hold
      → ((ltb core_budget measured && leb measured core_ceiling) ≡ true → inside.verdict ≡ v)
      → kept.verdict ≡ (if leb measured core_budget then verdict_pass else verdict_fail)
      → (if ltb core_ceiling measured
          then over
          else if ltb core_budget measured
          then inside
          else kept).verdict
        ≡ (if ltb core_ceiling measured
            then verdict_hold
            else if leb measured core_budget
            then verdict_pass
            else v)
  sized over inside kept measured v o i k = elim (Bool-cases (ltb core_ceiling measured)) [
    | inl a ↦ rw a o
    | inr a ↦ elim (Bool-cases (ltb core_budget measured)) [
      | inl b ↦ rw (a, b) (i (ground (arith, a, b)) ∙ ground (arith, b))
      | inr b ↦ rw (a, b) (k ∙ ground (arith, b))
    ]
  ]

  -- For a case that passes and six modules, the verdict of the case of the core's size is
  -- HOLD over the ceiling, PASS within the budget, and between the two FAIL unless a document
  -- names the number, PASS if it does and a sign-off covers the number, and HOLD otherwise.
  pub core_size_case_lem :
      (c : Case) (per_module : List ℕ) (doc : Option String) (signoff : Option Fields)
      → c.verdict ≡ verdict_pass
      → length per_module ≡ 6
      → (core_size_case p c per_module doc signoff).verdict
        ≡ SizeVerdict p (sum per_module) doc signoff
  unfolding core_size_case
  core_size_case_lem c per_module doc signoff v l =
      let measured = sum per_module in
      let c' = (check c "every_core_module_was_measured" (nat_eq (length per_module) 6) null).1 in
      let v' : c'.verdict ≡ verdict_pass =
        check_kept c "every_core_module_was_measured" (nat_eq (length per_module) 6) v
          (rw l refl) in
      sized (mark_hold c' "the portable core is over its recorded ceiling")
        (judge_overrun p c' measured doc signoff)
        (check c' "within_the_prd_budget" (leb measured core_budget) null).1 measured
        (if not (names_measurement p doc measured)
          then verdict_fail
          else if signoff_covers p signoff measured
          then verdict_pass
          else verdict_hold)
        refl (λ x. judge_overrun-verdict c' measured doc signoff v' x)
        (check-verdict c' "within_the_prd_budget" (leb measured core_budget) v')

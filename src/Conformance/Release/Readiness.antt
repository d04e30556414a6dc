-- ===== src/Conformance/Release/Readiness.antt =====
-- When the feature may be published.
use mcp_heartbeat.Prelude.{
  Bool, List, String, [], ap, arith, false, if◌then◌else◌, nat_eq, none, refl, some, true, ℕ, ◌&&◌,
  ◌++◌, ◌+◌, ◌∙◌, ◌∷◌, ◌≡◌,
}
use mcp_heartbeat.Conformance.Release.{
  Matrices, all_matrices, case_passed, evaluate_level, insort, matrix_of, met_of, no_items, none_of,
  results_from, set_result, some_passed, sorted, text_below, unmet_keys,
}
use mcp_heartbeat.Conformance.Verdicts.{
  Case, MatrixReport, Verdict, count, count_in, same_verdict, verdict_fail, verdict_hold,
  verdict_pass, verdict_unsupported,
}
use mcp_heartbeat.Conformance.Release.Levels.{publish}
use mcp_heartbeat.Conformance.Release.Risks.{
  Risk, Severity, collect_residual_risks, risk_below, risks_in, risks_of, severity_of, text_or,
}

-- the matrices of `_sample_matrices`
abbrev pub sample_matrices :
    (eras runtime identity cleanroom measurement isolation : MatrixReport) → Matrices
sample_matrices eras runtime identity cleanroom measurement isolation =
    ("cross-era", eras)
    ∷ ("distributed-runtime", runtime)
    ∷ ("identity-binding", identity)
    ∷ ("clean-room", cleanroom)
    ∷ ("measurement", measurement)
    ∷ ("isolation", isolation)
    ∷ []

no_items-insort :
    {A : Type 0} (below : A → A → Bool) (x : A) (xs : List A) → no_items (insort below x xs) ≡ false
unfolding insort no_items
no_items-insort below x [] = refl
no_items-insort below x (y ∷ ys) = ground arith

pub no_items-sorted :
    {A : Type 0} (below : A → A → Bool) (xs : List A) → no_items (sorted below xs) ≡ no_items xs
unfolding sorted no_items
no_items-sorted below [] = refl
no_items-sorted below (x ∷ xs) = no_items-insort below x (sorted below xs)

no_items-append : {A : Type 0} (xs ys : List A) → no_items (xs ++ ys) ≡ (no_items xs && no_items ys)
unfolding no_items
no_items-append [] ys = refl
no_items-append (x ∷ xs) ys = refl

abbrev settled : MatrixReport → Bool
settled r =
    nat_eq (count r verdict_fail) 0
    && (nat_eq (count r verdict_hold) 0 && nat_eq (count r verdict_unsupported) 0)

settled_case :
    (v : Verdict) (f h u : ℕ) (risk : Severity → Risk) (risks : List Risk)
    → no_items risks ≡ (nat_eq f 0 && (nat_eq h 0 && nat_eq u 0))
    → no_items (elim (severity_of v) [ none ↦ risks | some s ↦ risk s ∷ risks ]) ≡ (
        nat_eq ((if same_verdict v verdict_fail then 1 else 0) + f) 0
        && (nat_eq ((if same_verdict v verdict_hold then 1 else 0) + h) 0
            && nat_eq ((if same_verdict v verdict_unsupported then 1 else 0) + u) 0))
unfolding severity_of same_verdict no_items
settled_case verdict_pass f h u risk risks e = ground (arith, e)
settled_case verdict_fail f h u risk risks e = ground arith
settled_case verdict_hold f h u risk risks e = ground arith
settled_case verdict_unsupported f h u risk risks e = ground arith

no_items-risks_in :
    (matrix_id : String) (cs : List Case)
    → no_items (risks_in matrix_id cs) ≡ (
        nat_eq (count_in verdict_fail cs) 0
        && (nat_eq (count_in verdict_hold cs) 0 && nat_eq (count_in verdict_unsupported cs) 0))
unfolding risks_in count_in no_items
no_items-risks_in matrix_id [] = refl
no_items-risks_in matrix_id (c ∷ cs) =
    settled_case c.verdict (count_in verdict_fail cs) (count_in verdict_hold cs)
      (count_in verdict_unsupported cs)
      (λ (s : Severity). record {
        matrix = matrix_id;
        case = c.case_id;
        title = c.title;
        verdict = c.verdict;
        severity = s;
        detail = text_or c.reason (text_or c.error "see the case's failed checks");
      })
      (risks_in matrix_id cs) (no_items-risks_in matrix_id cs)

unfoldable pub all_settled : Matrices → Bool
all_settled [] = true
all_settled ((matrix_id, r) ∷ rest) = settled r && all_settled rest

no_items-risks_of : (matrices : Matrices) → no_items (risks_of matrices) ≡ all_settled matrices
unfolding risks_of all_settled no_items
no_items-risks_of [] = refl
no_items-risks_of ((matrix_id, r) ∷ rest) =
    no_items-append (risks_in matrix_id r.cases) (risks_of rest)
    ∙ rw (no_items-risks_in matrix_id r.cases, no_items-risks_of rest) refl

unfoldable pub all_met : List (String × Bool) → Bool
all_met [] = true
all_met ((key, met) ∷ rest) = met && all_met rest

no_items-unmet_keys : (rs : List (String × Bool)) → no_items (unmet_keys rs) ≡ all_met rs
unfolding unmet_keys all_met no_items
no_items-unmet_keys [] = refl
no_items-unmet_keys ((key, true) ∷ rest) = no_items-unmet_keys rest
no_items-unmet_keys ((key, false) ∷ rest) = refl

unfoldable pub without_verdict : Verdict → Matrices → Bool
without_verdict v [] = true
without_verdict v ((matrix_id, r) ∷ rest) = nat_eq (count r v) 0 && without_verdict v rest

zip_conditions :
    (f h u fs hs us : Bool)
    → (f && fs && (h && hs && (u && us))) ≡ (f && (h && u) && (fs && (hs && us)))
zip_conditions f h u fs hs us = ground arith

without_all_settled :
    (ms : Matrices)
    → (without_verdict verdict_fail ms
        && (without_verdict verdict_hold ms && without_verdict verdict_unsupported ms))
      ≡ all_settled ms
unfolding without_verdict all_settled
without_all_settled [] = refl
without_all_settled ((matrix_id, r) ∷ ms) =
    zip_conditions (nat_eq (count r verdict_fail) 0) (nat_eq (count r verdict_hold) 0)
      (nat_eq (count r verdict_unsupported) 0) (without_verdict verdict_fail ms)
      (without_verdict verdict_hold ms) (without_verdict verdict_unsupported ms)
    ∙ ap (λ b. settled r && b) (without_all_settled ms)

regroup :
    (f h u s c p d e : Bool)
    → (f && (h && u)) ≡ e
    → (f && (h && (u && (s && (c && (p && (d && true))))))) ≡ (e && (s && (c && (p && d))))
regroup f h u s c p d e q = ground (arith, q)

module _ (eras runtime identity cleanroom measurement isolation : MatrixReport) where
  abbrev all_six : Matrices
  all_six = sample_matrices eras runtime identity cleanroom measurement isolation

  met_none_of : (v : Verdict) → met_of (none_of v all_matrices all_six) ≡ without_verdict v all_six
  unfolding met_of none_of matrix_of without_verdict
  met_none_of v = ground arith

  no_risks : no_items (collect_residual_risks all_six) ≡ all_settled all_six
  no_risks = no_items-sorted risk_below (risks_of all_six) ∙ no_items-risks_of all_six

  publish_met : all_met (results_from [] publish.criteria all_six) ≡ (
      met_of (none_of verdict_fail all_matrices all_six)
      && (met_of (none_of verdict_hold all_matrices all_six)
          && (met_of (none_of verdict_unsupported all_matrices all_six)
              && (some_passed "current-current-sdk" eras.cases
                  && (some_passed "core-size" isolation.cases
                      && (some_passed "policy-gap-divergence" identity.cases
                          && (some_passed "downgrade-confusion" eras.cases && true)))))))
  unfolding results_from set_result case_passed matrix_of all_met met_of
  publish_met = refl

  -- For any six reports of the six matrices, the level `ready_to_publish` is ready exactly if
  -- no residual risk is collected and the four cases that it names have passed in their
  -- matrices.
  pub publish_ready_lem : (evaluate_level publish all_six).ready ≡ (
      no_items (collect_residual_risks all_six)
      && (some_passed "current-current-sdk" eras.cases
          && (some_passed "core-size" isolation.cases
              && (some_passed "policy-gap-divergence" identity.cases
                  && some_passed "downgrade-confusion" eras.cases))))
  publish_ready_lem =
      let results = results_from [] publish.criteria all_six in
      no_items-sorted text_below (unmet_keys results)
      ∙ (no_items-unmet_keys results
          ∙ (publish_met
              ∙ regroup (met_of (none_of verdict_fail all_matrices all_six))
                  (met_of (none_of verdict_hold all_matrices all_six))
                  (met_of (none_of verdict_unsupported all_matrices all_six))
                  (some_passed "current-current-sdk" eras.cases)
                  (some_passed "core-size" isolation.cases)
                  (some_passed "policy-gap-divergence" identity.cases)
                  (some_passed "downgrade-confusion" eras.cases)
                  (no_items (collect_residual_risks all_six))
                  (rw
                    (
                      met_none_of verdict_fail,
                      met_none_of verdict_hold,
                      met_none_of verdict_unsupported,
                      no_risks,
                    )
                    (without_all_settled all_six))))

-- ===== src/Conformance/Release.antt =====
-- release.py: which levels of readiness the matrices reach, and the risks that remain.
use mcp_heartbeat.Prelude.{
  Bool, List, Option, String, [], false, if◌then◌else◌, ltb, nat_eq, none, some, true, ℕ, ◌&&◌,
  ◌==◌, ◌||◌, ◌∷◌,
}
use mcp_heartbeat.Text.{codes}
use mcp_heartbeat.Conformance.Verdicts.{
  Case, MatrixReport, Verdict, count, same_verdict, verdict_fail, verdict_hold, verdict_pass,
  verdict_unsupported,
}
pub mod Levels
pub mod Risks
pub mod Adjudication
pub mod Readiness
pub mod Order

abbrev pub Matrices : Type 0
Matrices = List (String × MatrixReport)

-- `matrices[matrix_id]`; `none` is KeyError
unfoldable pub matrix_of : String → Matrices → Option MatrixReport
matrix_of matrix_id [] = none
matrix_of matrix_id ((key, r) ∷ rest) =
    if key == matrix_id then some r else matrix_of matrix_id rest

-- A predicate that raises is `none`.
pub record Criterion : Type 0 where
  pub key : String
  pub description : String
  pub predicate : Matrices → Option Bool

abbrev pub criterion : String → String → (Matrices → Option Bool) → Criterion
criterion key description holds_of = record {
  key = key;
  description = description;
  predicate = holds_of;
}

unfoldable pub met_of : Option Bool → Bool
met_of none = false
met_of (some b) = b

-- `Criterion.evaluate`
abbrev pub is_met : Criterion → Matrices → Bool
is_met c matrices = met_of (c.predicate matrices)

pub record Level : Type 0 where
  pub key : String
  pub title : String
  pub means : String
  pub criteria : List Criterion

unfoldable pub codes_below : List ℕ → List ℕ → Bool
codes_below xs [] = false
codes_below [] (y ∷ ys) = true
codes_below (x ∷ xs) (y ∷ ys) =
    let rest = codes_below xs ys in if ltb x y then true else nat_eq x y && rest

-- the order of texts
abbrev pub text_below : String → String → Bool
text_below s t = codes_below (codes s) (codes t)

-- Python's `sorted` is stable, so equal elements stay in order.
unfoldable pub insort {ℓ} : {A : Type ℓ} → (A → A → Bool) → A → List A → List A
insort below x [] = x ∷ []
insort below x (y ∷ ys) = let rest = insort below x ys in if below y x then y ∷ rest else x ∷ y ∷ ys

unfoldable pub sorted {ℓ} : {A : Type ℓ} → (A → A → Bool) → List A → List A
sorted below [] = []
sorted below (x ∷ xs) = insort below x (sorted below xs)

-- The results by key: a later criterion with the same key would overwrite an earlier one.
unfoldable pub set_result : String → Bool → List (String × Bool) → List (String × Bool)
set_result key met [] = (key, met) ∷ []
set_result key met ((k, b) ∷ rest) =
    let others = set_result key met rest in if k == key then (k, met) ∷ rest else (k, b) ∷ others

unfoldable pub results_from :
    List (String × Bool) → List Criterion → Matrices → List (String × Bool)
results_from done [] matrices = done
results_from done (c ∷ cs) matrices =
    results_from (set_result c.key (is_met c matrices) done) cs matrices

unfoldable pub unmet_keys : List (String × Bool) → List String
unmet_keys [] = []
unmet_keys ((k, met) ∷ rest) = if met then unmet_keys rest else k ∷ unmet_keys rest

unfoldable pub no_items {ℓ} : {A : Type ℓ} → List A → Bool
no_items [] = true
no_items (x ∷ xs) = false

pub record CriterionResult : Type 0 where
  pub key : String
  pub description : String
  pub met : Bool

-- `results[key]`, which is there for the key of a criterion
unfoldable pub met_in : String → List (String × Bool) → Bool
met_in key [] = false
met_in key ((k, met) ∷ rest) = let found = met_in key rest in if k == key then met else found

unfoldable pub criteria_results : List Criterion → List (String × Bool) → List CriterionResult
criteria_results [] results = []
criteria_results (c ∷ cs) results =
    record { key = c.key; description = c.description; met = met_in c.key results }
    ∷ criteria_results cs results

pub record LevelResult : Type 0 where
  pub key : String
  pub title : String
  pub means : String
  pub ready : Bool
  pub criteria : List CriterionResult
  pub unmet : List String

-- `Level.evaluate`
abbrev pub evaluate_level : Level → Matrices → LevelResult
evaluate_level l matrices =
    let results = results_from [] l.criteria matrices in
    let unmet = sorted text_below (unmet_keys results) in
    record {
      key = l.key;
      title = l.title;
      means = l.means;
      ready = no_items unmet;
      criteria = criteria_results l.criteria results;
      unmet = unmet;
    }

-- `all(matrices[mid].count(verdict) == 0 for mid in matrix_ids)`
unfoldable pub none_of : Verdict → List String → Matrices → Option Bool
none_of verdict [] matrices = some true
none_of verdict (mid ∷ mids) matrices = elim (matrix_of mid matrices) [
  | none ↦ none
  | some r ↦
      let rest = none_of verdict mids matrices in
      if nat_eq (count r verdict) 0 then rest else some false
]

abbrev pub no_failures : List String → Matrices → Option Bool
no_failures matrix_ids = none_of verdict_fail matrix_ids

abbrev pub no_holds : List String → Matrices → Option Bool
no_holds matrix_ids = none_of verdict_hold matrix_ids

abbrev pub nothing_unsupported : List String → Matrices → Option Bool
nothing_unsupported matrix_ids = none_of verdict_unsupported matrix_ids

unfoldable pub some_passed : String → List Case → Bool
some_passed case_id [] = false
some_passed case_id (c ∷ cs) =
    c.case_id == case_id && same_verdict c.verdict verdict_pass || some_passed case_id cs

unfoldable pub case_passed : String → String → Matrices → Option Bool
case_passed matrix_id case_id matrices = elim (matrix_of matrix_id matrices) [
  | none ↦ none
  | some r ↦ some (some_passed case_id r.cases)
]

abbrev pub all_matrices : List String
all_matrices =
    "cross-era" ∷ "distributed-runtime" ∷ "identity-binding" ∷ "clean-room" ∷ "measurement"
    ∷ "isolation" ∷ []

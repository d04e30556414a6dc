-- ===== src/Conformance/Signoff.antt =====
-- isolation.py: the sign-off of the core's size, and the case that asks for it.
pub mod Budget
use Prim.Native.String.{◌++◌ as append}
use mcp_heartbeat.Prelude.{
  Bool, List, Option, String, [], false, if◌then◌else◌, leb, length, ltb, nat_eq, none, not, some,
  sum, true, ℕ, ◌&&◌, ◌==◌, ◌∷◌,
}
use mcp_heartbeat.Json.{Fields, Json, bool, end, field, float, get, int, is_text, null, truthy}
use mcp_heartbeat.Platform.{Platform}
use mcp_heartbeat.Text.{codes}
use mcp_heartbeat.Conformance.Verdicts.{Case, check, mark_hold, same_verdict, verdict_pass}
use mcp_heartbeat.Current.Convergence.{verdict}
use mcp_heartbeat.Prelude.Int.{pos}
use mcp_heartbeat.Tools.Lines.{occurs}

-- `CORE_CEILING_LOC` and `PRD_CORE_BUDGET_LOC`
abbrev pub core_ceiling : ℕ
core_ceiling = 440

abbrev pub core_budget : ℕ
core_budget = 400

-- `SIGNOFF_REQUIRED_FIELDS`
abbrev pub signoff_fields : List String
signoff_fields =
    "decision" ∷ "measured_loc" ∷ "prd_budget_loc" ∷ "approver" ∷ "approved_on" ∷ "rationale" ∷ []

-- `all(record.get(name) for name in …)`
abbrev pub all_given : List String → Fields → Bool
all_given [] r = true
all_given (k ∷ ks) r = truthy (get k r) && all_given ks r

-- `budget_doc.is_file()`
abbrev pub doc_exists : Option String → Bool
doc_exists none = false
doc_exists (some doc) = true

abbrev pub signed : Option Fields → Fields
signed none = end
signed (some r) = r

module _ (p : Platform) where
  -- `value == number`: True is 1, False is 0, and a float is the number if its text says so
  abbrev pub equals_number : Json → ℕ → Bool
  equals_number (bool true) n = nat_eq n 1
  equals_number (bool false) n = nat_eq n 0
  equals_number (int (pos m)) n = nat_eq m n
  equals_number (float r) n = r == append (p.str_int (pos n)) ".0"
  equals_number _ n = false

  unfoldable pub signoff_covers : Option Fields → ℕ → Bool
  signoff_covers none measured = false
  signoff_covers (some end) measured = false
  signoff_covers (some (field k v fs)) measured =
      let r : Fields = field k v fs in
      is_text (get "decision" r) "accepted"
      && equals_number (get "measured_loc" r) measured
      && equals_number (get "prd_budget_loc" r) core_budget
      && all_given signoff_fields r

  -- `budget_doc.is_file() and str(measured) in budget_doc.read_text(…)`
  abbrev pub names_measurement : Option String → ℕ → Bool
  names_measurement none measured = false
  names_measurement (some doc) measured = occurs (codes (p.str_int (pos measured))) (codes doc)

  -- The checks of an overrun that was signed off.
  abbrev pub accept_overrun : Case → ℕ → Fields → Case
  accept_overrun c measured r =
      let c1 =
        (check c "an_operator_accepted_this_exact_overrun"
          (equals_number (get "measured_loc" r) measured) null).1 in
      let c2 =
        (check c1 "against_the_unchanged_prd_budget"
          (equals_number (get "prd_budget_loc" r) core_budget) null).1 in
      let c3 =
        (check c2 "the_signoff_names_an_approver_a_date_and_a_reason" (all_given signoff_fields r)
          null).1 in
      (check c3 "and_the_measurement_itself_was_not_moved_to_fit"
        (ltb core_budget measured && leb measured core_ceiling) null).1

  -- An overrun within the ceiling: documented, with the number, and signed off.
  abbrev pub judge_overrun : Case → ℕ → Option String → Option Fields → Case
  judge_overrun c measured doc signoff =
      let c1 = (check c "the_overrun_is_documented" (doc_exists doc) null).1 in
      let c2 =
        (check c1 "and_the_document_names_the_current_measurement" (names_measurement doc measured)
          null).1 in
      if not (same_verdict c2.verdict verdict_pass)
      then c2
      else if not (signoff_covers signoff measured)
      then mark_hold c2 "the documented justification needs operator sign-off"
      else accept_overrun c2 measured (signed signoff)

  -- The case, of the modules that were measured, the document and the sign-off; the details of
  -- its checks and its observations only report these.
  unfoldable pub core_size_case : Case → List ℕ → Option String → Option Fields → Case
  unfolding check same_verdict signoff_covers
  core_size_case c per_module doc signoff =
      let measured = sum per_module in
      let c' = (check c "every_core_module_was_measured" (nat_eq (length per_module) 6) null).1 in
      if ltb core_ceiling measured
      then mark_hold c' "the portable core is over its recorded ceiling"
      else if ltb core_budget measured
      then judge_overrun c' measured doc signoff
      else (check c' "within_the_prd_budget" (leb measured core_budget) null).1

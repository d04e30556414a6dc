-- ===== src/Conformance/Attestation.antt =====
-- sdk_attestation.py and tools/record_sdk_verification.py: the record of a run against the SDK.
pub mod Exactness
pub mod Digest
pub mod Tree
use mcp_heartbeat.Prelude.{
  Bool, List, Option, String, [], false, ltb, nat_eq, none, not, some, true, ◌&&◌, ◌==◌, ◌||◌, ◌∷◌,
}
use mcp_heartbeat.Json.{
  Fields, Json, bool, end, field, float, get, int, is_text, null, optional_text, str,
}
use mcp_heartbeat.Current.Contract.{protocol_revision}
use mcp_heartbeat.Prelude.Int.{pos, ℤ, ◌+ℤ◌, ◌-ℤ◌}

-- `SDK_PIN`
abbrev pub pinned_distribution : String
pinned_distribution = "mcp"

abbrev pub pinned_version : String
pinned_version = "2.0.0"

abbrev pub pinned_types : String
pinned_types = "mcp-types"

abbrev pub pinned_types_version : String
pinned_types_version = "2.0.0"

abbrev pub attestation_record : String
attestation_record = "official-sdk-leg-verification"

abbrev pub attestation_fields : List String
attestation_fields =
    "record" ∷ "sdk_distribution" ∷ "sdk_version" ∷ "sdk_types_distribution" ∷ "sdk_types_version"
    ∷ "implements_revision" ∷ "tests_passed" ∷ "tests_failed" ∷ "adapter_digest" ∷ "recorded_by"
    ∷ "recorded_on" ∷ []

-- `value in (None, "")`
abbrev pub is_unset : Json → Bool
is_unset null = true
is_unset (str s) = s == ""
is_unset _ = false

-- `any(record.get(name) in (None, "") for name in …)`
abbrev pub any_unset : List String → Fields → Bool
any_unset [] r = false
any_unset (k ∷ ks) r = is_unset (get k r) || any_unset ks r

-- `value == 0`
abbrev pub equals_zero : Json → Bool
equals_zero (bool b) = not b
equals_zero (int (pos n)) = nat_eq n 0
equals_zero (float r) = r == "0.0" || r == "-0.0"
equals_zero _ = false

-- `isinstance(value, int) and value > 0`, where a truth value is an int
abbrev pub is_positive_int : Json → Bool
is_positive_int (bool b) = b
is_positive_int (int (pos n)) = ltb 0 n
is_positive_int _ = false

abbrev pub clauses_hold : Fields → String → Bool
clauses_hold r digest =
    is_text (get "adapter_digest" r) digest
    && is_text (get "sdk_distribution" r) pinned_distribution
    && is_text (get "sdk_version" r) pinned_version
    && is_text (get "sdk_types_distribution" r) pinned_types
    && is_text (get "sdk_types_version" r) pinned_types_version
    && is_text (get "implements_revision" r) protocol_revision
    && equals_zero (get "tests_failed" r)
    && is_positive_int (get "tests_passed" r)

-- A record that is None or empty covers nothing.
unfoldable pub attestation_covers : Option Fields → String → Bool
attestation_covers none digest = false
attestation_covers (some end) digest = false
attestation_covers (some (field k v fs)) digest =
    let r : Fields = field k v fs in
    is_text (get "record" r) attestation_record
    && not (any_unset attestation_fields r)
    && clauses_hold r digest

-- One `testsuite` element of the report, with 0 for what it does not say.
pub record Suite : Type 0 where
  pub tests : ℤ
  pub failures : ℤ
  pub errors : ℤ
  pub skipped : ℤ

pub record Counts : Type 0 where
  pub tests : ℤ
  pub failures : ℤ
  pub errors : ℤ
  pub skipped : ℤ
  pub passed : ℤ

abbrev pub total_of : (Suite → ℤ) → List Suite → ℤ → ℤ
total_of f [] n = n
total_of f (s ∷ ss) n = total_of f ss (n +ℤ f s)

-- `suite_counts`, of the suites that were found
unfoldable pub suite_counts : List Suite → Counts
suite_counts suites =
    let tests = total_of (λ (s : Suite). s.tests) suites (pos 0) in
    let failures = total_of (λ (s : Suite). s.failures) suites (pos 0) in
    let errors = total_of (λ (s : Suite). s.errors) suites (pos 0) in
    let skipped = total_of (λ (s : Suite). s.skipped) suites (pos 0) in
    record {
      tests = tests;
      failures = failures;
      errors = errors;
      skipped = skipped;
      passed = tests -ℤ failures -ℤ errors -ℤ skipped;
    }

-- What `assert_contract_matches_sdk` found: the versions, None where a package is not found.
pub record Provenance : Type 0 where
  pub version : Option String
  pub types_version : Option String
  pub latest_modern_version : String
  pub matches_pin : Bool
  pub constants : ℤ
  pub grammar_cases : ℤ

-- `build_record`, less the four members that hold fixed texts and lists
unfoldable pub build_record : Provenance → Counts → String → String → String → Fields
build_record v c tree recorded_by recorded_on = field "record" (str attestation_record) (
    field "sdk_distribution" (str pinned_distribution) (
      field "sdk_version" (optional_text v.version) (
        field "sdk_types_distribution" (str pinned_types) (
          field "sdk_types_version" (optional_text v.types_version) (
            field "implements_revision" (str v.latest_modern_version) (
              field "matches_pin" (bool v.matches_pin) (
                field "suite" (str "tests/current") (
                  field "tests_collected" (int c.tests) (
                    field "tests_passed" (int c.passed) (
                      field "tests_failed" (int (c.failures +ℤ c.errors)) (
                        field "tests_skipped" (int c.skipped) (
                          field "constants_rederived" (int v.constants) (
                            field "identifier_grammar_cases" (int v.grammar_cases) (
                              field "adapter_digest" (str tree) (
                                field "recorded_by" (str recorded_by)
                                  (field "recorded_on" (str recorded_on) end))))))))))))))))

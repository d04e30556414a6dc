-- ===== src/Conformance/Attestation/Exactness.antt =====
-- Which run a record attests.
use mathlib.Core.Path.{subst}
use mcp_heartbeat.Prelude.{
  Bool, Option, String, ap, arith, eq_iff, eq_refl, false, none, not, some, true, ◌&&◌, ◌↔◌, ◌≡◌,
  ◌≢◌,
}
use mcp_heartbeat.Json.{
  Fields, Json, arr, bool, end, field, float, get, int, is_text, null, obj, optional_text, str,
}
use mcp_heartbeat.Conformance.Attestation.{
  Counts, Provenance, any_unset, attestation_covers, attestation_fields, attestation_record,
  build_record, clauses_hold, equals_zero, is_positive_int, is_unset, pinned_types_version,
  pinned_version,
}
use mcp_heartbeat.Current.Contract.{protocol_revision}
use mcp_heartbeat.Prelude.Int.{negsuc, pos, ℤ, ◌+ℤ◌, ◌<ℤ◌}

-- The run passed: some tests passed, and those that failed or had an error are none.
abbrev pub RunPassed : Counts → Type 0
RunPassed c = (c.failures +ℤ c.errors ≡ pos 0) × (pos 0 <ℤ c.passed)

-- what the code tests of it
abbrev TestedAsPassed : Counts → Type 0
TestedAsPassed c =
    (equals_zero (int (c.failures +ℤ c.errors)) ≡ true) × (is_positive_int (int c.passed) ≡ true)

equals_zero_iff : (z : ℤ) → (equals_zero (int z) ≡ true) ↔ (z ≡ pos 0)
equals_zero_iff (pos n) =
    (λ e. ap pos (ground (arith, e)), λ q. ap (λ (z : ℤ). equals_zero (int z)) q)
equals_zero_iff (negsuc n) = (λ e. ground arith, λ q. cc)

is_positive_int_iff : (z : ℤ) → (is_positive_int (int z) ≡ true) ↔ (pos 0 <ℤ z)
is_positive_int_iff (pos n) = (λ e. ground arith, λ l. ground arith)
is_positive_int_iff (negsuc n) = (λ e. ground arith, λ l. ground arith)

-- What is installed is what is pinned.
abbrev pub MatchesPin : Provenance → Type 0
MatchesPin v =
    (v.version ≡ some pinned_version)
    × (v.types_version ≡ some pinned_types_version)
    × (v.latest_modern_version ≡ protocol_revision)

-- what the tests on the members of a record come to
and_parts : (a b : Bool) → (a && b) ≡ true → (a ≡ true) × (b ≡ true)
and_parts a b e = ground arith

is_pinned : (o : Option String) (s : String) → is_text (optional_text o) s ≡ true → o ≡ some s
is_pinned none s e = ground arith
is_pinned (some t) s e = ground (arith, eq_iff t s)

pinned_text : (o : Option String) (s : String) → o ≡ some s → is_text (optional_text o) s ≡ true
pinned_text none s e = cc
pinned_text (some t) s e = ground (arith, eq_iff t s)

-- a number is set, and so is a text that is not empty
is_set : (s : String) → s ≢ "" → is_unset (str s) ≡ false
is_set s n = ground (arith, eq_iff s "")

module _ (v : Provenance) (c : Counts) (tree by_ on : String) where
  covers-build_record_sound :
      (tree' : String)
      → attestation_covers (some (build_record v c tree by_ on)) tree' ≡ true
      → (tree ≡ tree') × MatchesPin v × TestedAsPassed c
  unfolding attestation_covers build_record
  covers-build_record_sound tree' e =
      let r = build_record v c tree by_ on in
      let (unset, clauses) =
        and_parts (not (any_unset attestation_fields r)) (clauses_hold r tree') e in
      ground (
        arith,
        clauses,
        is_pinned v.version pinned_version,
        is_pinned v.types_version pinned_types_version,
        eq_iff tree tree',
        eq_iff v.latest_modern_version protocol_revision,
      )

  covers-build_record_complete :
      by_ ≢ ""
      → on ≢ ""
      → tree ≢ ""
      → MatchesPin v
      → TestedAsPassed c
      → attestation_covers (some (build_record v c tree by_ on)) tree ≡ true
  unfolding attestation_covers build_record
  covers-build_record_complete b o t (m, n, l) (z, q) =
      rw (m, n, l) (ground (arith, z, q, eq_refl tree, is_set tree t, is_set by_ b, is_set on o))

  -- The record that `build_record` makes of any run, with a digest, a recorder and a date
  -- that are not empty, covers a tree exactly if the digests are the same, the installed
  -- versions and the revision are those of the pin, the failures and errors add up to zero,
  -- and the number of tests that passed is positive.
  pub covers-build_record :
      by_ ≢ ""
      → on ≢ ""
      → tree ≢ ""
      → (tree' : String)
      → (attestation_covers (some (build_record v c tree by_ on)) tree' ≡ true)
        ↔ ((tree ≡ tree') × MatchesPin v × RunPassed c)
  covers-build_record b o t tree' =
      let failed = equals_zero_iff (c.failures +ℤ c.errors) in
      let some_passed = is_positive_int_iff c.passed in
      (
        λ e.
            let (trees, pinned, (none_failed, any_passed)) = covers-build_record_sound tree' e in
            (trees, pinned, (failed.0 none_failed, some_passed.0 any_passed)),
        λ h.
            subst
              (λ (x : String). attestation_covers (some (build_record v c tree by_ on)) x ≡ true)
              h.0 (covers-build_record_complete b o t h.1 (failed.1 h.2.0, some_passed.1 h.2.1)),
      )

clauses-digest :
    (r : Fields) (tree : String) → clauses_hold r tree ≡ true → get "adapter_digest" r ≡ str tree
clauses-digest r tree e = is_text-eq (get "adapter_digest" r) tree (ground (arith, e))
  where
    is_text-eq : (v : Json) (s : String) → is_text v s ≡ true → v ≡ str s
    is_text-eq (str t) s e = ground (arith, eq_iff t s)
    is_text-eq null s e = ground arith
    is_text-eq (bool b) s e = ground arith
    is_text-eq (int z) s e = ground arith
    is_text-eq (float x) s e = ground arith
    is_text-eq (arr x) s e = ground arith
    is_text-eq (obj x) s e = ground arith

covers-one_tree :
    (r : Option Fields) (a b : String)
    → attestation_covers r a ≡ true
    → attestation_covers r b ≡ true
    → a ≡ b
unfolding attestation_covers
covers-one_tree none a b e f = ground arith
covers-one_tree (some end) a b e f = ground arith
covers-one_tree (some (field k v fs)) a b e f =
    let r : Fields = field k v fs in
    let known =
      is_text (get "record" r) attestation_record && not (any_unset attestation_fields r) in
    let p = clauses-digest r a (and_parts known (clauses_hold r a) e).1 in
    let q = clauses-digest r b (and_parts known (clauses_hold r b) f).1 in cc (p, q)

-- ===== src/Core/Lineage/Failures.antt =====
-- When `admit` returns an outcome.
use mcp_heartbeat.Prelude.{
  Bool, Bool-cases, List, Option, Result-cases, String, [], ap, arith, false, if◌then◌else◌, inl,
  inr, none, not, ok, raise, refl, same, some, true, ℕ, ◌&&◌, ◌==◌, ◌∙◌, ◌∷◌, ◌≡◌, ◌≢◌, ◌⊎◌,
}
use mcp_heartbeat.Json.{Fields, Json, get, is_null, is_text, null, obj}
use mcp_heartbeat.Platform.{Instant, Platform}
use mcp_heartbeat.Core.Errors.{
  Exception, Violation, ViolationCode, bad_timestamp, node_id_mismatch, overflow_error,
  sequence_conflict, sequence_rollback, unsupported_extension_version, value_error,
}
use mcp_heartbeat.Core.Lineage.{
  Admission, LineageState, admit, admit_candidate, admitted, check_freshness, check_lineage,
  epoch_reuse, hold, is_duplicate, less, or_check, redelivery, refusal, same_digest, same_int,
}
use mcp_heartbeat.Core.Model.{Heartbeat, digest, extension_version}
use mcp_heartbeat.Core.Parse.{from_dict}
use mcp_heartbeat.Core.Time.{parse_rfc3339}
use mcp_heartbeat.Core.Validation.{
  check_timestamp, document_reason, expiry_window_violation, reason_after_window, schema_reason,
  validate_document,
}
use mcp_heartbeat.Prelude.Int.{ltb_ℤ, ℤ}
use mcp_heartbeat.Core.Parse.Agreement.{from_dict_complete}
use mcp_heartbeat.Core.Parse.Contract.{all_violations}
use mcp_heartbeat.Core.Parse.Totality.{describe}

abbrev pub NoOverflow : Platform → Json → Type 0
NoOverflow p v = parse_rfc3339 p v ≢ raise overflow_error

-- The members that the contract calls mandatory are not null.
pub record IsFilled (raw : Fields) : Type 0 where
  pub issued : is_null (get "issued_at" raw) ≡ false
  pub expires : is_null (get "expires_at" raw) ≡ false
  pub sequence : is_null (get "sequence" raw) ≡ false

-- A heartbeat can be encoded in UTF-8, so that it has a digest.
abbrev pub HasDigest : Platform → Heartbeat → Type 0
HasDigest p h = (d : String) × (digest p h ≡ ok d)

abbrev pub HasSequence : Option Heartbeat → Type 0
HasSequence none = Unit
HasSequence (some h) = h.sequence ≢ none

abbrev pub HeldHasDigest : Platform → Option Heartbeat → Type 0
HeldHasDigest p none = Unit
HeldHasDigest p (some h) = HasDigest p h

module _ (p : Platform) where
  parse-raise :
      (v : Json) (x : Exception)
      → parse_rfc3339 p v ≡ raise x
      → (x ≡ value_error) ⊎ (x ≡ overflow_error)
  unfolding parse_rfc3339
  parse-raise v x e = ground arith

  timestamp_returns :
      (name : String) (v : Json)
      → NoOverflow p v
      → (r : List Violation × Option Instant) × (check_timestamp p name v ≡ ok r)
  unfolding check_timestamp
  timestamp_returns name null n = (([], none), refl)
  timestamp_returns name v n = elim (Result-cases (parse_rfc3339 p v)) [
    | inl (t, q) ↦ (([], some t), rw q)
    | inr (x, q) ↦ elim (parse-raise v x q) [
      | inl e ↦ ((bad_timestamp name ∷ [], none), rw (q, e))
      | inr e ↦ absurd (n (q ∙ ap raise e))
    ]
  ]

  module _ (raw : Fields) (ni : NoOverflow p (get "issued_at" raw))
      (ne : NoOverflow p (get "expires_at" raw)) where
    -- When parsing neither timestamp of an object overflows, `validate_document` returns a
    -- list of violations and raises nothing.
    validate-total : (vs : List Violation) × (validate_document p (obj raw) ≡ ok vs)
    unfolding validate_document
    validate-total =
        let (i, qi) = timestamp_returns "issued_at" (get "issued_at" raw) ni in
        let (e, qe) = timestamp_returns "expires_at" (get "expires_at" raw) ne in
        (all_violations raw i.0 e.0 i.1 e.1, rw (qi, qe))

    window_no_raise : (x : Exception) → ¬ (expiry_window_violation p raw ≡ raise x)
    unfolding expiry_window_violation
    window_no_raise x w = elim (Result-cases (parse_rfc3339 p (get "issued_at" raw))) [
      | inr (y, q) ↦ ground (arith, q, ni, parse-raise (get "issued_at" raw) y q)
      | inl (t, q) ↦ elim (Result-cases (parse_rfc3339 p (get "expires_at" raw))) [
        | inr (y, r) ↦ ground (arith, q, r, ne, parse-raise (get "expires_at" raw) y r)
        | inl (u, r) ↦ ground (arith, q, r)
      ]
    ]

    after_window_returns :
        (c : Option ViolationCode)
        → (d : Option ViolationCode) × (reason_after_window p raw c ≡ ok d)
    after_window_returns none = let (vs, q) = validate-total in (schema_reason p vs, rw q)
    after_window_returns (some c) = (some c, refl)

    -- Without an overflow there is always an answer whether to refuse the document.
    pub document_reason-total : (c : Option ViolationCode) × (document_reason p (obj raw) ≡ ok c)
    unfolding document_reason
    document_reason-total =
        elim (Bool-cases (is_text (get "extension_version" raw) extension_version)) [
          | inr other ↦ (some unsupported_extension_version, rw other)
          | inl same_ ↦ elim (Result-cases (expiry_window_violation p raw)) [
            | inr (x, q) ↦ absurd (window_no_raise x q)
            | inl (c, q) ↦ let (d, r) = after_window_returns c in (d, rw (same_, q, r))
          ]
        ]

  reason_none_parts :
      (raw : Fields)
      → document_reason p (obj raw) ≡ ok none
      → (is_text (get "extension_version" raw) extension_version ≡ true)
        × (validate_document p (obj raw) ≡ ok [])
  unfolding document_reason
  reason_none_parts raw e = ground arith

  less_returns : (a b : Option ℤ) → a ≢ none → b ≢ none → (c : Bool) × (less a b ≡ ok c)
  unfolding less
  less_returns none b f g = absurd (f refl)
  less_returns (some a) none f g = absurd (g refl)
  less_returns (some a) (some b) f g = (ltb_ℤ a b, refl)

  same_digest_returns :
      (h o : Heartbeat) → HasDigest p h → HasDigest p o → (b : Bool) × (same_digest p h o ≡ ok b)
  unfolding same_digest
  same_digest_returns h o (d, q) (e, r) = (d == e, rw (q, r) refl)

  duplicate_returns :
      (s : LineageState) (h : Heartbeat) (held : Option Heartbeat)
      → s.held ≡ held
      → HeldHasDigest p held
      → HasDigest p h
      → (b : Bool) × (is_duplicate p s h ≡ ok b)
  unfolding is_duplicate
  duplicate_returns s h none e f g = (false, rw e refl)
  duplicate_returns s h (some o) e f g =
      let (b, q) = same_digest_returns h o g f in
      (
        (if same h.boot_id o.boot_id && same_int h.sequence o.sequence then b else false),
        ground (arith, e, q),
      )

  -- what the comparison with the held heartbeat of the epoch comes to
  abbrev compared : Heartbeat → Heartbeat → Bool → Bool → Option ViolationCode
  compared h o below alike =
      if below
      then some sequence_rollback
      else if same_int h.sequence o.sequence
      then if alike then none else some sequence_conflict
      else none

  lineage_returns :
      (s : LineageState) (h : Heartbeat) (held : Option Heartbeat)
      → s.held ≡ held
      → HasSequence held
      → HeldHasDigest p held
      → h.sequence ≢ none
      → HasDigest p h
      → (c : Option ViolationCode) × (check_lineage p s h ≡ ok c)
  unfolding check_lineage
  lineage_returns s h none e f d g x = (epoch_reuse s h, rw e)
  lineage_returns s h (some o) e f d g x =
      let (b, q) = less_returns h.sequence o.sequence g f in
      let (alike, r) = same_digest_returns h o x d in
      (
        (if same h.boot_id o.boot_id then compared h o b alike else epoch_reuse s h),
        ground (arith, e, q, r),
      )

  candidate_returns :
      (s : LineageState) (h : Heartbeat) (now : Instant) (k : ℕ)
      → HasSequence s.held
      → HeldHasDigest p s.held
      → h.sequence ≢ none
      → HasDigest p h
      → (a : Admission) × (admit_candidate p s h now k ≡ ok a)
  unfolding admit_candidate
  candidate_returns s h now k f d g x =
      let (c, q) = lineage_returns s h s.held refl f d g x in
      let (b, r) = duplicate_returns s h s.held refl d x in
      (
        (if not (same h.node_id (some s.participant_id))
            then refusal s node_id_mismatch
            else if b
            then redelivery s
            else or_check s c (or_check s (check_freshness h now k) (admitted (hold s h)))),
        ground (arith, q, r),
      )

  admit_returns :
      (s : LineageState) (raw : Fields) (now : Instant) (k : ℕ) (c : Option ViolationCode)
      → HasSequence s.held
      → HeldHasDigest p s.held
      → IsFilled raw
      → ((h : Heartbeat) → from_dict p (obj raw) ≡ ok h → HasDigest p h)
      → document_reason p (obj raw) ≡ ok c
      → (a : Admission) × (admit p s (obj raw) now k ≡ ok a)
  unfolding admit
  admit_returns s raw now k (some c) f e filled x r = (refusal s c, rw r)
  admit_returns s raw now k none f e filled x r =
      let (ver, val) = reason_none_parts raw r in
      let (h, d) = describe p raw ver val filled.issued filled.expires in
      let parsed = from_dict_complete p raw h d in
      let (a, q) =
        candidate_returns s h now k f e (λ e. cc (filled.sequence, ap is_null d.sequence_member, e))
          (x h parsed) in
      (a, rw (r, parsed, q))

  -- When the held heartbeat, if any, has a sequence and a digest, the members `issued_at`,
  -- `expires_at` and `sequence` of an object do not read as null, parsing neither timestamp
  -- overflows, and a heartbeat that the object is parsed to can be encoded in UTF-8, so that
  -- it has a digest: `admit` returns an outcome and raises nothing.
  pub admit-total :
      (s : LineageState) (raw : Fields) (now : Instant) (k : ℕ)
      → HasSequence s.held
      → HeldHasDigest p s.held
      → IsFilled raw
      → ((h : Heartbeat) → from_dict p (obj raw) ≡ ok h → HasDigest p h)
      → NoOverflow p (get "issued_at" raw)
      → NoOverflow p (get "expires_at" raw)
      → (a : Admission) × (admit p s (obj raw) now k ≡ ok a)
  admit-total s raw now k f e filled x ni ne =
      let (c, r) = document_reason-total raw ni ne in admit_returns s raw now k c f e filled x r

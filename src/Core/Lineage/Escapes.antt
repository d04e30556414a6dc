-- ===== src/Core/Lineage/Escapes.antt =====
-- Documents on which an exception leaves `admit`.
use mcp_heartbeat.Prelude.{[], arith, none, ok, raise, same_iff, some, true, ℕ, ◌≡◌, ◌≢◌}
use mcp_heartbeat.Json.{Fields, Json, get, has, null, obj, str}
use mcp_heartbeat.Platform.{Instant, Platform}
use mcp_heartbeat.Core.Errors.{overflow_error, type_error, value_error}
use mcp_heartbeat.Core.Lineage.{
  LineageState, admit, admit_candidate, check_lineage, is_duplicate, less,
}
use mcp_heartbeat.Core.Model.{Heartbeat, core_fields, extension_version}
use mcp_heartbeat.Core.Parse.{build, from_dict}
use mcp_heartbeat.Core.Time.{parse_rfc3339}
use mcp_heartbeat.Core.Validation.{document_reason, expiry_window_violation, validate_document}
use mcp_heartbeat.Core.Parse.Contract.{missing_fields_iff, violation_parts}
use mcp_heartbeat.Core.Parse.Totality.{int_of_sequence, text_of_boot, text_of_node, validated}

module _ (p : Platform) where
  -- When an object has version 0.1 and a member `issued_at` whose parsing overflows, `admit`
  -- raises OverflowError.
  admit-overflow :
      (s : LineageState) (raw : Fields) (now : Instant) (k : ℕ)
      → get "extension_version" raw ≡ str extension_version
      → has "issued_at" raw ≡ true
      → parse_rfc3339 p (get "issued_at" raw) ≡ raise overflow_error
      → admit p s (obj raw) now k ≡ raise overflow_error
  unfolding admit document_reason expiry_window_violation
  admit-overflow s raw now k ver there e = rw (ver, there, e)

  build_null_timestamp :
      (raw : Fields)
      → get "issued_at" raw ≡ null
      → validate_document p (obj raw) ≡ ok []
      → build p raw ≡ raise value_error
  unfolding build parse_rfc3339
  build_null_timestamp raw e v =
      let (vi, ve, i, x, qi, qe, all) = validated p raw v in
      let (c0, c1, c2, c3, c4, ci, ce, c5, c6, c7) = violation_parts raw vi ve i x all in
      let (node, mn, tn) = text_of_node (get "node_id" raw) c2 in
      let (boot, mb, tb) = text_of_boot (get "boot_id" raw) c3 in
      let (seq, ms, ts) = int_of_sequence (get "sequence" raw) c4 in
      let present = (missing_fields_iff core_fields raw).0 c0 in
      ground (arith, present, mn, mb, ms, e)

  reason_null_timestamp :
      (raw : Fields)
      → get "extension_version" raw ≡ str extension_version
      → has "issued_at" raw ≡ true
      → get "issued_at" raw ≡ null
      → validate_document p (obj raw) ≡ ok []
      → document_reason p (obj raw) ≡ ok none
  unfolding document_reason expiry_window_violation parse_rfc3339
  reason_null_timestamp raw ver there e v = rw (ver, there, e, v)

  from_dict_null_timestamp :
      (raw : Fields)
      → get "extension_version" raw ≡ str extension_version
      → get "issued_at" raw ≡ null
      → validate_document p (obj raw) ≡ ok []
      → from_dict p (obj raw) ≡ raise value_error
  unfolding from_dict
  from_dict_null_timestamp raw ver e v = rw (ver, v, build_null_timestamp raw e v)

  -- When an object has version 0.1, has a member `issued_at` that is null, and
  -- `validate_document` finds no violation in it, `admit` raises ValueError.
  pub admit-null_timestamp :
      (s : LineageState) (raw : Fields) (now : Instant) (k : ℕ)
      → get "extension_version" raw ≡ str extension_version
      → has "issued_at" raw ≡ true
      → get "issued_at" raw ≡ null
      → validate_document p (obj raw) ≡ ok []
      → admit p s (obj raw) now k ≡ raise value_error
  unfolding admit
  admit-null_timestamp s raw now k ver there e v =
      rw (reason_null_timestamp raw ver there e v, from_dict_null_timestamp raw ver e v)

  -- When the held heartbeat has no sequence, every document that has no reason to be refused
  -- and is parsed to a heartbeat of the participant, of the same epoch and with a sequence
  -- makes `admit` raise TypeError.
  pub admit-null_sequence :
      (s : LineageState) (document : Json) (now : Instant) (k : ℕ) (o h : Heartbeat)
      → s.held ≡ some o
      → o.sequence ≡ none
      → document_reason p document ≡ ok none
      → from_dict p document ≡ ok h
      → h.node_id ≡ some s.participant_id
      → h.boot_id ≡ o.boot_id
      → h.sequence ≢ none
      → admit p s document now k ≡ raise type_error
  unfolding admit admit_candidate is_duplicate check_lineage less
  admit-null_sequence s document now k o h eo so r f en eb sh =
      rw (r, f)
        (ground (arith, same_iff h.node_id (some s.participant_id), same_iff h.boot_id o.boot_id))

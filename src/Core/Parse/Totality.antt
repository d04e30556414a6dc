-- ===== src/Core/Parse/Totality.antt =====
-- From a validation without violations to a heartbeat, src/mcp_heartbeat/model.py.
use mathlib.Core.Path.{ap₂}
use mcp_heartbeat.Prelude.{
  List, Option, OptionalText, Result-cases, String, [], arith, false, inl, inr, none, ok, refl,
  some, sym, true, ◌∙◌, ◌≡◌,
}
use mcp_heartbeat.Json.{
  Fields, Json, get, int, is_null, is_text, members, null, obj, optional_text, str,
}
use mcp_heartbeat.Platform.{Instant, Platform}
use mcp_heartbeat.Text.{boot_id_re, node_id_re}
use mcp_heartbeat.Core.Errors.{Violation}
use mcp_heartbeat.Core.Model.{Heartbeat, core_fields, extension_version, optional_int}
use mcp_heartbeat.Core.Time.{parse_rfc3339}
use mcp_heartbeat.Core.Validation.{
  check_boot_id, check_node_id, check_sequence, check_timestamp, check_window, validate_document,
}
use mcp_heartbeat.Prelude.Int.{negsuc, pos, ℤ}
use mcp_heartbeat.Core.Parse.Contract.{
  Describes, NonNegative, TextMatches, all_violations, check_extensions_iff, check_window_iff,
  is_text→eq, missing_fields_iff, unknown_members_iff, violation_parts,
}

pub text_of_node :
    (v : Json)
    → check_node_id v ≡ []
    → (o : OptionalText) × (v ≡ optional_text o) × TextMatches node_id_re o
unfolding check_node_id
text_of_node null e = (none, refl, tt)
text_of_node (str s) e = (some s, refl, ground arith)
text_of_node _ e = cc

pub text_of_boot :
    (v : Json)
    → check_boot_id v ≡ []
    → (o : OptionalText) × (v ≡ optional_text o) × TextMatches boot_id_re o
unfolding check_boot_id
text_of_boot null e = (none, refl, tt)
text_of_boot (str s) e = (some s, refl, ground arith)
text_of_boot _ e = cc

pub int_of_sequence :
    (v : Json) → check_sequence v ≡ [] → (o : Option ℤ) × (v ≡ optional_int o) × NonNegative o
unfolding check_sequence
int_of_sequence null e = (none, refl, tt)
int_of_sequence (int (pos n)) e = (some (pos n), refl, omega arith)
int_of_sequence (int (negsuc n)) e = cc
int_of_sequence _ e = cc

module _ (p : Platform) where
  -- what the loop over the timestamps found
  parsed :
      (name : String) (v : Json) (vs : List Violation) (o : Option Instant)
      → check_timestamp p name v ≡ ok (vs, o)
      → vs ≡ []
      → is_null v ≡ false
      → (t : Instant) × (parse_rfc3339 p v ≡ ok t) × (o ≡ some t)
  unfolding check_timestamp
  parsed name null vs o e n f = cc
  parsed name v vs o e n f = elim (Result-cases (parse_rfc3339 p v)) [
    | inl (t, q) ↦ (t, q, ground (arith, q))
    | inr (x, q) ↦ ground (arith, q)
  ]

  module _ (raw : Fields) where
    pub validated :
        validate_document p (obj raw) ≡ ok []
        → (vi : List Violation) × (ve : List Violation) × (i : Option Instant) × (e : Option
            Instant)
          × (check_timestamp p "issued_at" (get "issued_at" raw) ≡ ok (vi, i))
          × (check_timestamp p "expires_at" (get "expires_at" raw) ≡ ok (ve, e))
          × (all_violations raw vi ve i e ≡ [])
    unfolding validate_document
    validated v = elim (Result-cases (check_timestamp p "issued_at" (get "issued_at" raw))) [
      | inr (x, q) ↦ ground (arith, q)
      | inl ((vi, i), q) ↦
          elim (Result-cases (check_timestamp p "expires_at" (get "expires_at" raw))) [
            | inr (x, r) ↦ ground (arith, q, r)
            | inl ((ve, e), r) ↦ (vi, ve, i, e, q, r, ground (arith, q, r))
          ]
    ]

    -- When the version of an object is 0.1, `validate_document` finds no violation in it
    -- and its two timestamps do not read as null, there is a heartbeat that it describes
    -- according to the contract.
    pub describe :
        is_text (get "extension_version" raw) extension_version ≡ true
        → validate_document p (obj raw) ≡ ok []
        → is_null (get "issued_at" raw) ≡ false
        → is_null (get "expires_at" raw) ≡ false
        → (h : Heartbeat) × Describes p raw h
    describe ver v ni ne =
        let (vi, ve, i, e, qi, qe, all) = validated v in
        let (c0, c1, c2, c3, c4, ci, ce, c5, c6, c7) = violation_parts raw vi ve i e all in
        let (ti, pi, oi) = parsed "issued_at" (get "issued_at" raw) vi i qi ci ni in
        let (te, pe, oe) = parsed "expires_at" (get "expires_at" raw) ve e qe ce ne in
        let (node, mn, tn) = text_of_node (get "node_id" raw) c2 in
        let (boot, mb, tb) = text_of_boot (get "boot_id" raw) c3 in
        let (seq, ms, ts) = int_of_sequence (get "sequence" raw) c4 in
        let window = (check_window_iff ti te).0 (sym (ap₂ check_window oi oe) ∙ c5) in
        let h : Heartbeat = record {
          node_id = node;
          boot_id = boot;
          sequence = seq;
          issued_at = ti;
          expires_at = te;
          version = extension_version;
          extensions = members (get "extensions" raw);
        } in
        (
          h,
          record {
            version_text = is_text→eq (get "extension_version" raw) extension_version ver;
            version_value = refl;
            present = (missing_fields_iff core_fields raw).0 c0;
            node_member = mn;
            node_matches = tn;
            boot_member = mb;
            boot_matches = tb;
            sequence_member = ms;
            sequence_bound = ts;
            issued_member = pi;
            expires_member = pe;
            window_open = window.0;
            window_bound = window.1;
            extensions_ok = (check_extensions_iff (get "extensions" raw)).0 c6;
            extensions_value = refl;
            members_ok = (unknown_members_iff raw).0 c7;
          },
        )

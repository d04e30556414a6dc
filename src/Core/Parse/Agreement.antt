-- ===== src/Core/Parse/Agreement.antt =====
-- `from_dict`, `validate_document` and `document_reason` against the contract.
use mcp_heartbeat.Prelude.{List, [], ap, arith, none, ok, some, sym, true, ◌∙◌, ◌≡◌}
use mcp_heartbeat.Json.{Fields, get, is_text, obj}
use mcp_heartbeat.Platform.{Platform}
use mcp_heartbeat.Core.Errors.{Violation}
use mcp_heartbeat.Core.Model.{Heartbeat, core_fields, extension_version}
use mcp_heartbeat.Core.Parse.{build, from_dict}
use mcp_heartbeat.Core.Validation.{
  check_boot_id, check_node_id, check_sequence, check_version, document_reason,
  expiry_window_violation, validate_document,
}
use mcp_heartbeat.Core.Parse.Contract.{
  Built, Describes, all_violations, build_complete, build_sound, check_boot_id_iff,
  check_extensions_iff, check_node_id_iff, check_sequence_iff, check_timestamp-parse,
  check_window_iff, is_text→eq, missing_fields_iff, unknown_members_iff, violation_parts,
}

module _ (p : Platform) (raw : Fields) (h : Heartbeat) where
  abbrev violations : List Violation
  violations = all_violations raw [] [] (some h.issued_at) (some h.expires_at)

  validate-eq : Built p raw h → validate_document p (obj raw) ≡ ok violations
  unfolding validate_document
  validate-eq b = rw (
    check_timestamp-parse p "issued_at" (get "issued_at" raw) h.issued_at b.issued_member,
    check_timestamp-parse p "expires_at" (get "expires_at" raw) h.expires_at b.expires_member,
  )

  Describes-of_none :
      is_text (get "extension_version" raw) extension_version ≡ true
      → Built p raw h
      → violations ≡ []
      → Describes p raw h
  Describes-of_none ver b e =
      let (c0, c1, c2, c3, c4, ci, ce, c5, c6, c7) =
        violation_parts raw [] [] (some h.issued_at) (some h.expires_at) e in
      record {
        version_text = is_text→eq (get "extension_version" raw) extension_version ver;
        version_value = b.version_value;
        present = (missing_fields_iff core_fields raw).0 c0;
        node_member = b.node_member;
        node_matches = (check_node_id_iff h.node_id).0 (sym (ap check_node_id b.node_member) ∙ c2);
        boot_member = b.boot_member;
        boot_matches = (check_boot_id_iff h.boot_id).0 (sym (ap check_boot_id b.boot_member) ∙ c3);
        sequence_member = b.sequence_member;
        sequence_bound =
            (check_sequence_iff h.sequence).0 (sym (ap check_sequence b.sequence_member) ∙ c4);
        issued_member = b.issued_member;
        expires_member = b.expires_member;
        window_open = ((check_window_iff h.issued_at h.expires_at).0 c5).0;
        window_bound = ((check_window_iff h.issued_at h.expires_at).0 c5).1;
        extensions_ok = (check_extensions_iff (get "extensions" raw)).0 c6;
        extensions_value = b.extensions_value;
        members_ok = (unknown_members_iff raw).0 c7;
      }

  Built-of_Describes : Describes p raw h → Built p raw h
  Built-of_Describes d = record {
    node_member = d.node_member;
    boot_member = d.boot_member;
    sequence_member = d.sequence_member;
    issued_member = d.issued_member;
    expires_member = d.expires_member;
    version_value = d.version_value;
    extensions_value = d.extensions_value;
  }

  none_of_Describes : Describes p raw h → violations ≡ []
  unfolding check_version
  none_of_Describes d = simp (
    (missing_fields_iff core_fields raw).1 d.present,
    d.version_text,
    d.node_member,
    (check_node_id_iff h.node_id).1 d.node_matches,
    d.boot_member,
    (check_boot_id_iff h.boot_id).1 d.boot_matches,
    d.sequence_member,
    (check_sequence_iff h.sequence).1 d.sequence_bound,
    (check_window_iff h.issued_at h.expires_at).1 (d.window_open, d.window_bound),
    (check_extensions_iff (get "extensions" raw)).1 d.extensions_ok,
    (unknown_members_iff raw).1 d.members_ok,
  )

  from_dict_parts :
      from_dict p (obj raw) ≡ ok h
      → (is_text (get "extension_version" raw) extension_version ≡ true)
        × (validate_document p (obj raw) ≡ ok [])
        × (build p raw ≡ ok h)
  unfolding from_dict
  from_dict_parts e = ground arith

  -- When `from_dict` returns a heartbeat for an object, the object satisfies the whole
  -- contract (version, mandatory members, identifiers, sequence, a window that is open and at
  -- most an hour, namespaced extensions and unknown members, where an identifier or the
  -- sequence may be null) and the heartbeat has the values of its members.
  pub from_dict_sound : from_dict p (obj raw) ≡ ok h → Describes p raw h
  from_dict_sound e =
      let (ver, val, b) = from_dict_parts e in
      let built = build_sound p raw h b in
      Describes-of_none ver built (ground (arith, val, validate-eq built))

  pub validate-nil : Describes p raw h → validate_document p (obj raw) ≡ ok []
  validate-nil d = validate-eq (Built-of_Describes d) ∙ ap ok (none_of_Describes d)

  -- When an object satisfies the contract and describes the heartbeat `h`, `from_dict`
  -- returns `h`.
  pub from_dict_complete : Describes p raw h → from_dict p (obj raw) ≡ ok h
  unfolding from_dict
  from_dict_complete d =
      rw (d.version_text, validate-nil d, build_complete p raw h d.present (Built-of_Describes d))

  window_none : Describes p raw h → expiry_window_violation p raw ≡ ok none
  unfolding expiry_window_violation
  window_none d = ground arith

  pub document_reason_complete : Describes p raw h → document_reason p (obj raw) ≡ ok none
  unfolding document_reason
  document_reason_complete d = rw (d.version_text, window_none d, validate-nil d)

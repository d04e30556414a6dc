-- ===== src/Core/Parse/Contract.antt =====
-- The contract of a document as the code enforces it, and `from_dict` against it.
use mcp_heartbeat.Prelude.{
  Bool, List, Option, OptionalText, String, [], ap, arith, contains, eq_iff, none, ok, refl, some,
  true, ◌++◌, ◌+◌, ◌<◌, ◌==◌, ◌||◌, ◌↔◌, ◌∷◌, ◌≡◌, ◌≤◌,
}
use mcp_heartbeat.Json.{
  Fields, Json, end, field, get, has, is_text, members, null, obj, optional_text, str,
}
use mcp_heartbeat.Platform.{Instant, Platform}
use mcp_heartbeat.Text.{boot_id_re, node_id_re}
use mcp_heartbeat.Core.Errors.{Violation, bare_extension_key}
use mcp_heartbeat.Core.Model.{Heartbeat, core_fields, extension_version, optional_int}
use mcp_heartbeat.Core.Parse.{build}
use mcp_heartbeat.Core.Time.{parse_rfc3339}
use mcp_heartbeat.Core.Validation.{
  bare_keys, check_boot_id, check_extensions, check_node_id, check_sequence, check_timestamp,
  check_version, check_window, max_lease, missing_fields, namespaced, unknown_members,
}
use mcp_heartbeat.Prelude.Int.{pos, ℤ, ◌≤ℤ◌}

abbrev pub TextMatches : (String → Bool) → OptionalText → Type 0
TextMatches re none = Unit
TextMatches re (some s) = re s ≡ true

abbrev pub NonNegative : Option ℤ → Type 0
NonNegative none = Unit
NonNegative (some z) = pos 0 ≤ℤ z

abbrev pub AllPresent : List String → Fields → Type 0
AllPresent [] raw = Unit
AllPresent (name ∷ names) raw = (has name raw ≡ true) × AllPresent names raw

abbrev pub AllKeys : (String → Bool) → Fields → Type 0
AllKeys test end = Unit
AllKeys test (field k v fs) = (test k ≡ true) × AllKeys test fs

abbrev pub known_or_namespaced : String → Bool
known_or_namespaced k = (contains k core_fields || k == "extensions") || namespaced k

abbrev pub AreExtensions : Json → Type 0
AreExtensions null = Unit
AreExtensions (obj fs) = AllKeys namespaced fs
AreExtensions _ = ⊥

-- `h` is what a well-formed document `raw` says. A member may be null where the type allows None.
pub record Describes (p : Platform) (raw : Fields) (h : Heartbeat) : Type 0 where
  pub version_text : get "extension_version" raw ≡ str extension_version
  pub version_value : h.version ≡ extension_version
  pub present : AllPresent core_fields raw
  pub node_member : get "node_id" raw ≡ optional_text h.node_id
  pub node_matches : TextMatches node_id_re h.node_id
  pub boot_member : get "boot_id" raw ≡ optional_text h.boot_id
  pub boot_matches : TextMatches boot_id_re h.boot_id
  pub sequence_member : get "sequence" raw ≡ optional_int h.sequence
  pub sequence_bound : NonNegative h.sequence
  pub issued_member : parse_rfc3339 p (get "issued_at" raw) ≡ ok h.issued_at
  pub expires_member : parse_rfc3339 p (get "expires_at" raw) ≡ ok h.expires_at
  pub window_open : h.issued_at < h.expires_at
  pub window_bound : h.expires_at ≤ h.issued_at + max_lease
  pub extensions_ok : AreExtensions (get "extensions" raw)
  pub extensions_value : h.extensions ≡ members (get "extensions" raw)
  pub members_ok : AllKeys known_or_namespaced raw

pub append-eq-nil {ℓ} : {A : Type ℓ} (xs ys : List A) → xs ++ ys ≡ [] → (xs ≡ []) × (ys ≡ [])
append-eq-nil [] ys e = (refl, e)
append-eq-nil (x ∷ xs) ys e = cc

-- The violations of a document, given what the two timestamps came to.
module _ (raw : Fields) (vi ve : List Violation) (issued expires : Option Instant) where
  abbrev pub all_violations : List Violation
  all_violations =
      missing_fields core_fields raw
      ++ (check_version (get "extension_version" raw)
          ++ (check_node_id (get "node_id" raw)
              ++ (check_boot_id (get "boot_id" raw)
                  ++ (check_sequence (get "sequence" raw)
                      ++ (vi
                          ++ (ve
                              ++ (check_window issued expires
                                  ++ (check_extensions (get "extensions" raw)
                                      ++ unknown_members raw))))))))

  pub violation_parts :
      all_violations ≡ []
      → (missing_fields core_fields raw ≡ [])
        × (check_version (get "extension_version" raw) ≡ [])
        × (check_node_id (get "node_id" raw) ≡ [])
        × (check_boot_id (get "boot_id" raw) ≡ [])
        × (check_sequence (get "sequence" raw) ≡ [])
        × (vi ≡ [])
        × (ve ≡ [])
        × (check_window issued expires ≡ [])
        × (check_extensions (get "extensions" raw) ≡ [])
        × (unknown_members raw ≡ [])
  violation_parts e0 =
      let (c0, e1) = append-eq-nil (missing_fields core_fields raw) _ e0 in
      let (c1, e2) = append-eq-nil (check_version (get "extension_version" raw)) _ e1 in
      let (c2, e3) = append-eq-nil (check_node_id (get "node_id" raw)) _ e2 in
      let (c3, e4) = append-eq-nil (check_boot_id (get "boot_id" raw)) _ e3 in
      let (c4, e5) = append-eq-nil (check_sequence (get "sequence" raw)) _ e4 in
      let (c5, e6) = append-eq-nil vi _ e5 in
      let (c6, e7) = append-eq-nil ve _ e6 in
      let (c7, e8) = append-eq-nil (check_window issued expires) _ e7 in
      let (c8, c9) = append-eq-nil (check_extensions (get "extensions" raw)) _ e8 in
      (c0, c1, c2, c3, c4, c5, c6, c7, c8, c9)

pub missing_fields_iff :
    (names : List String) (raw : Fields) → (missing_fields names raw ≡ []) ↔ AllPresent names raw
unfolding missing_fields
missing_fields_iff [] raw = ((λ e. tt), (λ h. refl))
missing_fields_iff (n ∷ ns) raw = ground (arith, missing_fields_iff ns raw)

bare_keys_iff :
    (m : String → Violation) (fs : Fields) → (bare_keys m fs ≡ []) ↔ AllKeys namespaced fs
unfolding bare_keys
bare_keys_iff m end = ((λ e. tt), (λ h. refl))
bare_keys_iff m (field k v fs) = ground (arith, bare_keys_iff m fs)

pub unknown_members_iff : (fs : Fields) → (unknown_members fs ≡ []) ↔ AllKeys known_or_namespaced fs
unfolding unknown_members
unknown_members_iff end = ((λ e. tt), (λ h. refl))
unknown_members_iff (field k v fs) = ground (arith, unknown_members_iff fs)

pub check_extensions_iff : (v : Json) → (check_extensions v ≡ []) ↔ AreExtensions v
unfolding check_extensions
check_extensions_iff (obj fs) = bare_keys_iff bare_extension_key fs
check_extensions_iff null = ((λ e. tt), (λ h. refl))
check_extensions_iff _ = ground arith

pub is_text→eq : (v : Json) (t : String) → is_text v t ≡ true → v ≡ str t
is_text→eq (str s) t e = ap str ((eq_iff s t).0 e)
is_text→eq null t e = cc
is_text→eq _ t e = cc

pub check_version-text : (v : Json) → is_text v extension_version ≡ true → check_version v ≡ []
unfolding check_version
check_version-text v e = ground (arith, e)

pub check_node_id_iff :
    (o : OptionalText) → (check_node_id (optional_text o) ≡ []) ↔ TextMatches node_id_re o
unfolding check_node_id
check_node_id_iff o = ground arith

pub check_boot_id_iff :
    (o : OptionalText) → (check_boot_id (optional_text o) ≡ []) ↔ TextMatches boot_id_re o
unfolding check_boot_id
check_boot_id_iff o = ground arith

pub check_sequence_iff : (o : Option ℤ) → (check_sequence (optional_int o) ≡ []) ↔ NonNegative o
unfolding check_sequence
check_sequence_iff o = ground arith

pub check_window_iff :
    (a b : Instant) → (check_window (some a) (some b) ≡ []) ↔ ((a < b) × (b ≤ a + max_lease))
unfolding check_window
check_window_iff a b = ground arith

module _ (p : Platform) where
  pub check_timestamp-parse :
      (name : String) (v : Json) (t : Instant)
      → parse_rfc3339 p v ≡ ok t
      → check_timestamp p name v ≡ ok ([], some t)
  unfolding check_timestamp
  check_timestamp-parse name null t e = unfold parse_rfc3339 in cc
  check_timestamp-parse name _ t e = rw e

  -- what `build` took from the document
  pub record Built (raw : Fields) (h : Heartbeat) : Type 0 where
    pub node_member : get "node_id" raw ≡ optional_text h.node_id
    pub boot_member : get "boot_id" raw ≡ optional_text h.boot_id
    pub sequence_member : get "sequence" raw ≡ optional_int h.sequence
    pub issued_member : parse_rfc3339 p (get "issued_at" raw) ≡ ok h.issued_at
    pub expires_member : parse_rfc3339 p (get "expires_at" raw) ≡ ok h.expires_at
    pub version_value : h.version ≡ extension_version
    pub extensions_value : h.extensions ≡ members (get "extensions" raw)

  pub build_sound : (raw : Fields) (h : Heartbeat) → build p raw ≡ ok h → Built raw h
  unfolding build
  build_sound raw h e = ground arith

  pub build_complete :
      (raw : Fields) (h : Heartbeat) → AllPresent core_fields raw → Built raw h → build p raw ≡ ok h
  unfolding build
  build_complete raw h a b = ground arith

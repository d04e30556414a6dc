-- ===== src/Cleanroom/Validation.antt =====
-- `validate` of the clean-room participant, and its timestamps.
use Prim.Native.String.{◌++◌ as append}
use mcp_heartbeat.Prelude.{
  Bool, List, Option, String, [], contains, if◌then◌else◌, leb, ltb, none, not, some, ℕ, ◌&&◌, ◌++◌,
  ◌+◌, ◌==◌, ◌||◌, ◌∷◌,
}
use mcp_heartbeat.Json.{Fields, Json, end, field, get, has, int, is_null, is_text, null, obj, str}
use mcp_heartbeat.Platform.{Instant, Moment, Platform}
use mcp_heartbeat.Text.{boot_id_re, drop_last, ends_with_z, node_id_re}
use mcp_heartbeat.Core.Validation.{namespaced}
use mcp_heartbeat.Prelude.Int.{neg_part, negsuc, pos, pos_part, ℤ}

-- `EXTENSION_VERSION`, `REQUIRED_FIELDS` and `MAX_LEASE_SECONDS`, in microseconds
abbrev pub contract_version : String
contract_version = "0.1"

abbrev pub required_fields : List String
required_fields =
    "extension_version" ∷ "node_id" ∷ "boot_id" ∷ "sequence" ∷ "issued_at" ∷ "expires_at" ∷ []

abbrev pub max_window : ℕ
max_window = 3600000000

pub data CleanViolation : Type 0 where
  no_object node_id_pattern boot_id_pattern sequence_not_integer sequence_below_zero :
      CleanViolation
  window_not_open window_over_limit extensions_no_object : CleanViolation
  lacks_field not_an_instant extension_key_bare member_key_bare : String → CleanViolation
  other_version : Json → CleanViolation

-- An aware `datetime`: its clock face and its UTC offset.
pub record Aware : Type 0 where
  pub face : ℕ
  pub offset : ℤ

-- `a <= b` for aware datetimes
abbrev pub aware_leb : Aware → Aware → Bool
aware_leb a b =
    leb (a.face + neg_part a.offset + pos_part b.offset)
      (b.face + neg_part b.offset + pos_part a.offset)

-- `a + duration < b`
abbrev pub aware_past : Aware → ℕ → Aware → Bool
aware_past a duration b =
    ltb (a.face + neg_part a.offset + pos_part b.offset + duration)
      (b.face + neg_part b.offset + pos_part a.offset)

abbrev pub in_utc : Instant → Aware
in_utc t = record { face = t; offset = pos 0 }

abbrev pub aware_of : Option Moment → Option Aware
aware_of none = none
aware_of (some m) = elim m.offset [
  | none ↦ none
  | some o ↦ some (record { face = m.local; offset = o })
]

abbrev pub clean_if : Bool → CleanViolation → List CleanViolation
clean_if b v = if b then v ∷ [] else []

unfoldable pub clean_missing : List String → Fields → List CleanViolation
clean_missing [] document = []
clean_missing (name ∷ names) document =
    clean_if (not (has name document)) (lacks_field name) ++ clean_missing names document

unfoldable pub clean_version : Json → List CleanViolation
clean_version v = clean_if (not (is_null v) && not (is_text v contract_version)) (other_version v)

-- an identifier against its pattern
unfoldable pub clean_identifier : (String → Bool) → CleanViolation → Json → List CleanViolation
clean_identifier pattern_of v null = []
clean_identifier pattern_of v (str s) = clean_if (not (pattern_of s)) v
clean_identifier pattern_of v _ = v ∷ []

unfoldable pub clean_sequence : Json → List CleanViolation
clean_sequence null = []
clean_sequence (int (pos n)) = []
clean_sequence (int (negsuc n)) = sequence_below_zero ∷ []
clean_sequence _ = sequence_not_integer ∷ []

unfoldable pub clean_timestamp : String → Option Aware → Fields → List CleanViolation
clean_timestamp name (some t) document = []
clean_timestamp name none document = clean_if (has name document) (not_an_instant name)

unfoldable pub clean_window : Option Aware → Option Aware → List CleanViolation
clean_window (some issued) (some expires) =
    if aware_leb expires issued
    then window_not_open ∷ []
    else clean_if (aware_past issued max_window expires) window_over_limit
clean_window _ _ = []

unfoldable pub bare_extension_keys : Fields → List CleanViolation
bare_extension_keys end = []
bare_extension_keys (field k v fs) =
    clean_if (not (namespaced k)) (extension_key_bare k) ++ bare_extension_keys fs

unfoldable pub clean_extensions : Json → List CleanViolation
unfolding bare_extension_keys
clean_extensions null = []
clean_extensions (obj fs) = bare_extension_keys fs
clean_extensions _ = extensions_no_object ∷ []

-- `key in KNOWN_FIELDS`
abbrev pub known_field : String → Bool
known_field k = contains k required_fields || k == "extensions"

unfoldable pub bare_members : Fields → List CleanViolation
bare_members end = []
bare_members (field k v fs) =
    clean_if (not (known_field k) && not (namespaced k)) (member_key_bare k) ++ bare_members fs

module _ (p : Platform) where
  unfoldable pub parse_timestamp : Json → Option Aware
  parse_timestamp (str raw) =
      aware_of (p.fromisoformat (if ends_with_z raw then append (drop_last raw) "+00:00" else raw))
  parse_timestamp _ = none

  -- `validate`
  unfoldable pub validate : Json → List CleanViolation
  unfolding parse_timestamp
  validate (obj document) =
      let issued = parse_timestamp (get "issued_at" document) in
      let expires = parse_timestamp (get "expires_at" document) in
      clean_missing required_fields document
      ++ (clean_version (get "extension_version" document)
          ++ (clean_identifier node_id_re node_id_pattern (get "node_id" document)
              ++ (clean_identifier boot_id_re boot_id_pattern (get "boot_id" document)
                  ++ (clean_sequence (get "sequence" document)
                      ++ (clean_timestamp "issued_at" issued document
                          ++ (clean_timestamp "expires_at" expires document
                              ++ (clean_window issued expires
                                  ++ (clean_extensions (get "extensions" document)
                                      ++ bare_members document))))))))
  validate _ = no_object ∷ []

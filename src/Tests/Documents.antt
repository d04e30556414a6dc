-- ===== src/Tests/Documents.antt =====
-- Parsing at concrete documents, the ones that raise included.
use Prim.Native.Char.{nul}
use mcp_heartbeat.Prelude.{String, [], arith, none, ok, raise, refl, ◌+◌, ◌≡◌}
use mcp_heartbeat.Json.{Fields, end, field, int, null, obj, str}
use mcp_heartbeat.Platform.{Instant}
use mcp_heartbeat.Text.{boot_id_re, node_id_re}
use mcp_heartbeat.Core.Errors.{type_error, value_error}
use mcp_heartbeat.Core.Lineage.{Admission, admit, default_max_skew, hold}
use mcp_heartbeat.Core.Model.{Heartbeat, digest, digest_of, to_dict}
use mcp_heartbeat.Core.Parse.{from_dict}
use mcp_heartbeat.Core.Time.{format_rfc3339, parse_rfc3339}
use mcp_heartbeat.Core.Validation.{
  check_boot_id, check_extensions, check_node_id, check_sequence, check_timestamp, check_version,
  check_window, missing_fields, unknown_members, validate_document,
}
use mcp_heartbeat.Prelude.Int.{pos}
use mcp_heartbeat.Tests.Toy.{
  boot_1, document_of, empty_state, first_lease, lease-Describes, lease-IsPublishable,
  lease-document_reason, lease-from_dict, new_year, toy, toy-IsFaithful,
}
use mcp_heartbeat.Core.Lineage.Escapes.{admit-null_sequence, admit-null_timestamp}
use mcp_heartbeat.Core.Lineage.Failures.{HasDigest, NoOverflow, admit-total}
use mcp_heartbeat.Core.Parse.Agreement.{from_dict_complete, from_dict_sound}
use mcp_heartbeat.Core.Parse.Contract.{Describes}
use mcp_heartbeat.Core.Producer.Roundtrip.{IsWritable, from_dict-to_dict, parse-format}

abbrev raw_lease : Fields
raw_lease = to_dict toy first_lease

from_dict_sound_example : Describes toy raw_lease first_lease
from_dict_sound_example =
    from_dict_sound toy raw_lease first_lease (lease-from_dict "boot-1" 0 boot_1)

from_dict_complete_example : from_dict toy (obj raw_lease) ≡ ok first_lease
from_dict_complete_example =
    from_dict_complete toy raw_lease first_lease (lease-Describes "boot-1" 0 boot_1)

from_dict-to_dict_example : from_dict toy (document_of first_lease) ≡ ok first_lease
from_dict-to_dict_example =
    from_dict-to_dict toy toy-IsFaithful first_lease (lease-IsPublishable "boot-1" 0 boot_1)

no_overflow : (t : Instant) → IsWritable t → NoOverflow toy (str (format_rfc3339 toy t))
no_overflow t w = λ e. cc (e, parse-format toy toy-IsFaithful t w)

new_year-IsWritable : IsWritable new_year
new_year-IsWritable = record { millis = refl; above = omega arith; below = omega arith }

expiry-IsWritable : IsWritable (new_year + 30000000)
expiry-IsWritable = record { millis = refl; above = omega arith; below = omega arith }

toy-HasDigest : (h : Heartbeat) → HasDigest toy h
unfolding digest digest_of
toy-HasDigest h = ("sha256:0123456789abcdef0123456789abcdef0123456789abcdef0123456789abcdef", refl)

admit-total_example :
    (a : Admission) × (admit toy empty_state (obj raw_lease) new_year default_max_skew ≡ ok a)
unfolding to_dict
admit-total_example =
    admit-total toy empty_state raw_lease new_year default_max_skew tt tt
      (record { issued = refl; expires = refl; sequence = refl }) (λ h e. toy-HasDigest h)
      (no_overflow new_year new_year-IsWritable)
      (no_overflow (new_year + 30000000) expiry-IsWritable)

abbrev early_text : String
early_text = String.◌∷◌ nul (String.◌∷◌ nul (String.◌∷◌ nul (String.◌∷◌ nul "+23:59")))

abbrev null_issued : Fields
null_issued = field "extension_version" (str "0.1") (
    field "node_id" (str "node/a") (
      field "boot_id" (str "boot-1") (
        field "sequence" (int (pos 0))
          (field "issued_at" null (field "expires_at" (str "0000Z") end)))))

null_issued_valid : validate_document toy (obj null_issued) ≡ ok []
unfolding validate_document check_timestamp parse_rfc3339 missing_fields check_version check_node_id
    check_boot_id check_sequence check_window check_extensions unknown_members node_id_re boot_id_re
null_issued_valid = refl

admit-null_timestamp_example :
    admit toy empty_state (obj null_issued) new_year default_max_skew ≡ raise value_error
admit-null_timestamp_example =
    admit-null_timestamp toy empty_state null_issued new_year default_max_skew refl refl refl
      null_issued_valid

abbrev blank_lease : Heartbeat
blank_lease = record first_lease { sequence = none }

admit-null_sequence_example :
    admit toy (hold empty_state blank_lease) (obj raw_lease) new_year default_max_skew
    ≡ raise type_error
admit-null_sequence_example =
    admit-null_sequence toy (hold empty_state blank_lease) (obj raw_lease) new_year default_max_skew
      blank_lease first_lease refl refl (lease-document_reason "boot-1" 0 boot_1)
      (lease-from_dict "boot-1" 0 boot_1) refl refl (λ e. ground (arith, e))

-- ===== src/Tests/Admissions.antt =====
-- Admission and the publisher at concrete documents.
use mathlib.Core.Option.{some-injective}
use mcp_heartbeat.Prelude.{arith, eq_iff, false, none, ok, raise, refl, some, ◌+◌, ◌≡◌}
use mcp_heartbeat.Json.{end}
use mcp_heartbeat.Platform.{Platform}
use mcp_heartbeat.Text.{node_id_re}
use mcp_heartbeat.Core.Errors.{boot_id_reuse, unicode_encode_error}
use mcp_heartbeat.Core.Lineage.{admit, admitted, default_max_skew, hold, redelivery, refusal}
use mcp_heartbeat.Core.Model.{digest, digest_of}
use mcp_heartbeat.Core.Parse.{build, from_dict}
use mcp_heartbeat.Core.Producer.{Issuer}
use mcp_heartbeat.Core.Time.{parse_rfc3339}
use mcp_heartbeat.Core.Validation.{
  check_timestamp, document_reason, expiry_window_violation, validate_document,
}
use mcp_heartbeat.Prelude.Int.{pos}
use mcp_heartbeat.Tests.Toy.{
  boot_1, document_of, empty_state, first_admitted, first_lease, first_lease-Supersedes,
  first_state, lease-document_reason, lease-from_dict, new_year, rebooted_state, reuse_refused,
  second_admitted, second_lease, toy, toy-IsFaithful,
}
use mcp_heartbeat.Core.Lineage.Documents.{admit-redelivery}
use mcp_heartbeat.Core.Lineage.History.{
  IsGone, Reach, Reach-IsGone, Reach-Since, Since, here, next, step,
}
use mcp_heartbeat.Core.Lineage.Outcomes.{admitted_complete, admitted_sound}
use mcp_heartbeat.Core.Lineage.Rules.{Supersedes}
use mcp_heartbeat.Core.Producer.Stream.{IsReady, bump, deliver, deliver-accepted, minted}

admitted_sound_example :
    (document_reason toy (document_of first_lease) ≡ ok none)
    × (from_dict toy (document_of first_lease) ≡ ok first_lease)
    × Supersedes empty_state first_lease new_year default_max_skew
admitted_sound_example =
    admitted_sound toy empty_state (document_of first_lease) new_year default_max_skew first_lease
      first_admitted

admitted_complete_example :
    admit toy empty_state (document_of first_lease) new_year default_max_skew
    ≡ ok (admitted first_state)
admitted_complete_example =
    admitted_complete toy empty_state (document_of first_lease) new_year default_max_skew
      first_lease (lease-document_reason "boot-1" 0 boot_1) (lease-from_dict "boot-1" 0 boot_1)
      first_lease-Supersedes

one_refusal : Reach toy default_max_skew rebooted_state rebooted_state
one_refusal = next here (
    step (document_of second_lease) new_year (refusal rebooted_state boot_id_reuse) reuse_refused
      refl)

one_advance : Reach toy default_max_skew first_state (hold first_state second_lease)
one_advance = next here (
    step (document_of second_lease) new_year (admitted (hold first_state second_lease))
      second_admitted refl)

Reach-IsGone_example : IsGone toy default_max_skew (some "boot-1") rebooted_state
Reach-IsGone_example = Reach-IsGone toy default_max_skew (some "boot-1") one_refusal (
  refl,
  λ e. ground (arith, (eq_iff "boot-2" "boot-1").1 (some-injective _ _ (some-injective _ _ e))),
)

Reach-Since_example : Since (hold first_state second_lease) first_lease (some second_lease)
Reach-Since_example = Reach-Since toy default_max_skew first_lease one_advance (refl, refl) refl

admit-redelivery_example :
    admit toy first_state (document_of first_lease) 0 0 ≡ ok (redelivery first_state)
unfolding digest digest_of
admit-redelivery_example =
    admit-redelivery toy empty_state (document_of first_lease) new_year 0 default_max_skew 0
      first_lease first_admitted

-- The first lease, where no text can be encoded: it is admitted, and its redelivery raises.
abbrev surrogates : Platform
surrogates = record toy { encodes = λ s. false }

surrogate_redelivery_raises :
    admit surrogates first_state (document_of first_lease) 0 0 ≡ raise unicode_encode_error
unfolding digest digest_of document_reason expiry_window_violation validate_document parse_rfc3339
    check_timestamp from_dict build
surrogate_redelivery_raises =
    admit-redelivery surrogates empty_state (document_of first_lease) new_year 0 default_max_skew 0
      first_lease
      (admitted_complete surrogates empty_state (document_of first_lease) new_year default_max_skew
        first_lease (lease-document_reason "boot-1" 0 boot_1) (lease-from_dict "boot-1" 0 boot_1)
        first_lease-Supersedes)

abbrev publisher : Issuer
publisher = record {
  participant_id = "node/a";
  epoch_id = "boot-1";
  lease = pos 30000000;
  extensions = end;
  next_sequence = 0;
}

publisher-IsReady : IsReady publisher empty_state
unfolding node_id_re
publisher-IsReady = record {
  participant = refl;
  node = refl;
  boot = boot_1;
  keys = tt;
  behind = refl;
}

deliver-accepted_example :
    (deliver toy default_max_skew publisher empty_state new_year
      ≡ ok (
        admitted (hold empty_state (minted publisher new_year (new_year + 30000000))),
        bump publisher,
      ))
    × IsReady (bump publisher) (hold empty_state (minted publisher new_year (new_year + 30000000)))
deliver-accepted_example =
    deliver-accepted toy default_max_skew toy-IsFaithful publisher empty_state new_year 30000000
      publisher-IsReady refl (omega arith) (omega arith)
      (record { millis = refl; above = omega arith; below = omega arith })
      (record { millis = refl; above = omega arith; below = omega arith })

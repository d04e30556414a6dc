-- ===== src/Core/Lineage.antt =====
-- Admission, src/mcp_heartbeat/lineage.py: does a document supersede the held heartbeat?
use mcp_heartbeat.Prelude.{
  Bool, List, Option, OptionalText, String, [], false, if◌then◌else◌, insert, ltb, member, none,
  not, ok, raise, same, some, true, ℕ, ◌&&◌, ◌+◌, ◌==◌, ◌>>=◌, ◌||◌,
}
use mcp_heartbeat.Json.{Json}
use mcp_heartbeat.Platform.{Instant, Platform}
use mcp_heartbeat.Core.Errors.{
  Raises, ViolationCode, boot_id_reuse, clock_skew_exceeded, expired_on_arrival, node_id_mismatch,
  sequence_conflict, sequence_rollback, type_error,
}
use mcp_heartbeat.Core.Model.{Heartbeat, digest, is_fresh}
use mcp_heartbeat.Core.Parse.{from_dict}
use mcp_heartbeat.Core.Validation.{document_reason}
use mcp_heartbeat.Prelude.Int.{eq_ℤ, ltb_ℤ, ℤ}
pub mod Rules
pub mod Outcomes
pub mod History
pub mod Documents
pub mod Failures
pub mod Escapes

-- `DEFAULT_MAX_SKEW_SECONDS`, in microseconds
abbrev pub default_max_skew : ℕ
default_max_skew = 5000000

pub record LineageState : Type 0 where
  pub participant_id : String
  pub held : Option Heartbeat
  pub retired_epochs : List OptionalText

abbrev pub initial : String → LineageState
initial participant = record { participant_id = participant; held = none; retired_epochs = [] }

pub record Admission : Type 0 where
  pub state : LineageState
  pub reason : Option ViolationCode
  pub duplicate : Bool

unfoldable pub accepted : Admission → Bool
accepted a = elim a.reason [ none ↦ not a.duplicate | some code ↦ false ]

-- `Admission(state, reason)`
abbrev pub refusal : LineageState → ViolationCode → Admission
refusal s code = record { state = s; reason = some code; duplicate = false }

abbrev pub redelivery : LineageState → Admission
redelivery s = record { state = s; reason = none; duplicate = true }

-- `replace(state, held=candidate, retired_epochs=state.retired_epochs | {candidate.boot_id})`
abbrev pub hold : LineageState → Heartbeat → LineageState
hold s h = record s { held = some h; retired_epochs = insert h.boot_id s.retired_epochs }

abbrev pub admitted : LineageState → Admission
admitted s = record { state = s; reason = none; duplicate = false }

-- The next check runs where the one before found nothing.
abbrev pub or_check : LineageState → Option ViolationCode → Admission → Admission
or_check s (some code) next = refusal s code
or_check s none next = next

unfoldable pub check_freshness : Heartbeat → Instant → ℕ → Option ViolationCode
unfolding is_fresh
check_freshness h now max_skew =
    if ltb (now + max_skew) h.issued_at || ltb (h.issued_at + max_skew) now
    then some clock_skew_exceeded
    else if is_fresh h now
    then none
    else some expired_on_arrival

-- `a < b`, which raises TypeError on None
unfoldable pub less : Option ℤ → Option ℤ → Raises Bool
less (some a) (some b) = ok (ltb_ℤ a b)
less none b = raise type_error
less (some a) none = raise type_error

-- `a == b`
abbrev pub same_int : Option ℤ → Option ℤ → Bool
same_int none none = true
same_int none (some b) = false
same_int (some a) none = false
same_int (some a) (some b) = eq_ℤ a b

abbrev pub epoch_reuse : LineageState → Heartbeat → Option ViolationCode
epoch_reuse s h = if member h.boot_id s.retired_epochs then some boot_id_reuse else none

-- the same counter with other bytes
abbrev pub conflict_unless : Raises Bool → Raises (Option ViolationCode)
conflict_unless (ok alike) = ok (if alike then none else some sequence_conflict)
conflict_unless (raise e) = raise e

module _ (p : Platform) where
  -- `candidate.digest == held.digest`
  unfoldable pub same_digest : Heartbeat → Heartbeat → Raises Bool
  same_digest h o = do a ← digest p h; b ← digest p o; ok (a == b)

  -- within the held epoch, once the sequences were compared
  abbrev pub same_epoch : Heartbeat → Heartbeat → Bool → Raises (Option ViolationCode)
  same_epoch h o below =
      if below
      then ok (some sequence_rollback)
      else if same_int h.sequence o.sequence
      then conflict_unless (same_digest h o)
      else ok none

  abbrev pub within_epoch : Heartbeat → Heartbeat → Raises (Option ViolationCode)
  within_epoch h o = do below ← less h.sequence o.sequence; same_epoch h o below

  unfoldable pub check_lineage : LineageState → Heartbeat → Raises (Option ViolationCode)
  unfolding less
  check_lineage s h = elim s.held [
    | none ↦ ok (epoch_reuse s h)
    | some o ↦ if same h.boot_id o.boot_id then within_epoch h o else ok (epoch_reuse s h)
  ]

  unfoldable pub is_duplicate : LineageState → Heartbeat → Raises Bool
  is_duplicate s h = elim s.held [
    | none ↦ ok false
    | some o ↦
        if same h.boot_id o.boot_id && same_int h.sequence o.sequence
        then same_digest h o
        else ok false
  ]

  -- the checks of `admit` on a heartbeat that was parsed
  unfoldable pub admit_candidate : LineageState → Heartbeat → Instant → ℕ → Raises Admission
  admit_candidate s h now max_skew =
      if not (same h.node_id (some s.participant_id))
      then ok (refusal s node_id_mismatch)
      else is_duplicate s h >>= λ duplicate.
          if duplicate
          then ok (redelivery s)
          else check_lineage s h >>= λ lineage. ok (
              or_check s lineage
                (or_check s (check_freshness h now max_skew) (admitted (hold s h))))

  abbrev pub after_reason :
      LineageState → Json → Instant → ℕ → Option ViolationCode → Raises Admission
  after_reason s document now max_skew (some code) = ok (refusal s code)
  after_reason s document now max_skew none =
      from_dict p document >>= λ h. admit_candidate s h now max_skew

  unfoldable pub admit : LineageState → Json → Instant → ℕ → Raises Admission
  admit s document now max_skew =
      document_reason p document >>= after_reason s document now max_skew

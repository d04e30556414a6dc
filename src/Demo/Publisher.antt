-- ===== src/Demo/Publisher.antt =====
-- demo/publisher: `Participant`, an issuer with a control channel.
use mcp_heartbeat.Prelude.{
  Bool, String, false, if◌then◌else◌, not, ok, raise, some, true, ℕ, ◌&&◌, ◌+◌, ◌==◌,
}
use mcp_heartbeat.Json.{Fields, Json, end, field, obj, str}
use mcp_heartbeat.Platform.{Instant, Platform, show}
use mcp_heartbeat.Core.Errors.{Raises, value_error}
use mcp_heartbeat.Core.Model.{Heartbeat, to_dict}
use mcp_heartbeat.Core.Producer.{Issuer, issue, new_issuer}
use mcp_heartbeat.Prelude.Int.{ℤ}
pub mod Stream

-- `STATUS_EXTENSION`
abbrev pub status_extension : String
status_extension = "com.dougfirlabs/heartbeat"

-- The lease is in microseconds; the lock makes each call one step.
pub record Participant : Type 0 where
  pub participant_id : String
  pub lease : ℤ
  pub status : String
  pub frozen : Bool
  pub restarts : ℕ
  pub issuer : Issuer
  pub last : Fields

-- `_new_issuer`; `minted` is the epoch that is drawn
abbrev pub mint_issuer : String → ℤ → String → Issuer
mint_issuer node lease minted = new_issuer node (some minted) minted lease end

-- `Participant(participant_id, lease_seconds)`
unfoldable pub new_participant : String → ℤ → String → Participant
new_participant node lease minted = record {
  participant_id = node;
  lease = lease;
  status = "serving";
  frozen = false;
  restarts = 0;
  issuer = mint_issuer node lease minted;
  last = end;
}

abbrev pub no_fields : Fields → Bool
no_fields end = true
no_fields (field k v fs) = false

-- What `state` reports.
pub record ParticipantState : Type 0 where
  pub participant_id : String
  pub epoch_id : String
  pub next_sequence : ℕ
  pub status : String
  pub frozen : Bool
  pub restarts : ℕ
  pub lease : ℤ

abbrev pub state_of : Participant → ParticipantState
state_of d = record {
  participant_id = d.participant_id;
  epoch_id = d.issuer.epoch_id;
  next_sequence = d.issuer.next_sequence;
  status = d.status;
  frozen = d.frozen;
  restarts = d.restarts;
  lease = d.lease;
}

abbrev pub reported : Participant → Raises ParticipantState × Participant
reported d = (ok (state_of d), d)

module _ (p : Platform) where
  -- what `issue` came to; the issuer keeps the extensions that were set before an exception
  abbrev pub issued_by :
      Participant → Issuer → Raises (Heartbeat × Issuer) → Raises Fields × Participant
  issued_by d i (ok (h, after)) =
      (ok (to_dict p h), record d { issuer = after; last = to_dict p h })
  issued_by d i (raise e) = (raise e, record d { issuer = i })

  -- `heartbeat` at the instant `now`
  unfoldable pub participant_heartbeat : Participant → Instant → Raises Fields × Participant
  participant_heartbeat d now =
      if d.frozen && not (no_fields d.last)
      then (ok d.last, d)
      else let told : Issuer = record d.issuer {
        extensions = field status_extension (obj (field "status" (str d.status) end)) end;
      } in
        issued_by d told (issue told now)

  -- `control`, with the epoch that a restart draws
  unfoldable pub control :
      Participant → String → Json → String → Raises ParticipantState × Participant
  control d operation value minted =
      if operation == "freeze"
      then reported (record d { frozen = true })
      else if operation == "thaw"
      then reported (record d { frozen = false })
      else if operation == "restart"
      then reported (record d {
        issuer = mint_issuer d.participant_id d.lease minted;
        last = end;
        frozen = false;
        restarts = d.restarts + 1;
      })
      else if operation == "status"
      then reported (record d { status = show p value })
      else (raise value_error, d)

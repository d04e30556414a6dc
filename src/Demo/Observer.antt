-- ===== src/Demo/Observer.antt =====
-- demo/observer: `Session`, which polls a publisher and records what it admits.
use mcp_heartbeat.Prelude.{
  List, Option, String, [], if◌then◌else◌, none, ok, raise, some, ℕ, ◌++◌, ◌>>=◌, ◌∷◌,
}
use mcp_heartbeat.Json.{Fields, Json, get, obj}
use mcp_heartbeat.Platform.{Instant, Platform}
use mcp_heartbeat.Core.Errors.{Raises, ViolationCode}
use mcp_heartbeat.Core.Lineage.{Admission, LineageState, accepted, admit, initial}
use mcp_heartbeat.Core.Validation.{item}
pub mod Polling

-- `_stamp()` is a text of the time.
pub record Transition : Type 0 where
  pub at : String
  pub epoch_id : Json
  pub sequence : Json
  pub expires_at : Json

pub record Refusal : Type 0 where
  pub at : String
  pub reason : ViolationCode
  pub sequence : Json

pub record Observer : Type 0 where
  pub state : LineageState
  pub transitions : List Transition
  pub refusals : List Refusal

-- `Session(publisher, participant_id)`
abbrev pub new_observer : String → Observer
new_observer node = record { state = initial node; transitions = []; refusals = [] }

-- the entry for a document that was accepted, whose members raise KeyError if they are not there
abbrev pub transition_of : String → Fields → Raises Transition
transition_of stamp document = do
  epoch ← item "boot_id" document
  sequence ← item "sequence" document
  expires ← item "expires_at" document
  ok (record { at = stamp; epoch_id = epoch; sequence = sequence; expires_at = expires })

-- `self.transitions.append(…)`, once the state is replaced
abbrev pub append_transition :
    Observer → Admission → Raises Transition → Raises Admission × Observer
append_transition o a (ok t) = (ok a, record o { transitions = o.transitions ++ t ∷ [] })
append_transition o a (raise e) = (raise e, o)

abbrev pub append_refusal : Observer → String → Fields → Option ViolationCode → Observer
append_refusal o stamp document none = o
append_refusal o stamp document (some code) = record o {
  refusals =
      o.refusals ++ (record { at = stamp; reason = code; sequence = get "sequence" document }) ∷ [];
}

abbrev pub record_outcome :
    Observer → String → Fields → Raises Admission → Raises Admission × Observer
record_outcome o stamp document (raise e) = (raise e, o)
record_outcome o stamp document (ok a) =
    if accepted a
    then append_transition (record o { state = a.state }) a (transition_of stamp document)
    else (ok a, append_refusal o stamp document a.reason)

-- `poll`, of a document that the publisher answered with
unfoldable pub poll_document :
    Platform → ℕ → Observer → Fields → Instant → String → Raises Admission × Observer
unfolding accepted
poll_document p skew o document now stamp =
    record_outcome o stamp document (admit p o.state (obj document) now skew)

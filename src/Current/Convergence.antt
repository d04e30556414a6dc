-- ===== src/Current/Convergence.antt =====
-- src/mcp_heartbeat_current/convergence.py: `HeartbeatConsumer`, which refetches a lease when a hint
-- or its own deadline says so. What the transport answers is an argument of `refetch`.
pub mod Hints
pub mod Authority
pub mod Deadline
pub mod Verdicts
use Prim.Native.Nat.{min}
use mcp_heartbeat.Prelude.{
  Bool, Option, OptionalText, String, false, if◌then◌else◌, leb, none, not, ok, raise, some, true,
  ℕ, ◌+◌, ◌-◌, ◌>>=◌, ◌||◌,
}
use mcp_heartbeat.Json.{Json}
use mcp_heartbeat.Platform.{Instant, Platform}
use mcp_heartbeat.Core.Errors.{
  Raises, ViolationCode, error_code, heartbeat_error, key_error, overflow_error, type_error,
  unicode_encode_error, value_error,
}
use mcp_heartbeat.Core.Lineage.{Admission, LineageState, admit, initial}
use mcp_heartbeat.Core.Model.{Heartbeat, is_fresh}
use mcp_heartbeat.Core.Ports.{ChangeHint, matches}
use mcp_heartbeat.Core.Producer.{add_delta}
use mcp_heartbeat.Current.Identity.{Binder, Principal, ResponseBinding, enforce, evaluate, is_bound}
use mcp_heartbeat.Prelude.Int.{pos}

pub data Convergence : Type 0 where
  advanced unchanged refused identity_refused non_authoritative unreachable : Convergence

-- `source.fetch` returns a `FetchResult` or raises an exception of some class.
pub data Fetch : Type 0 where
  failed : String → Fetch
  fetched : Json → Option Principal → Fetch

pub data Reason : Type 0 where
  violation : ViolationCode → Reason
  text : String → Reason

pub record Verdict : Type 0 where
  pub convergence : Convergence
  pub participant_id : String
  pub binding : Option ResponseBinding
  pub reason : Option Reason
  pub held : Option Heartbeat

abbrev pub is_advanced : Convergence → Bool
is_advanced advanced = true
is_advanced _ = false

-- What the constructor is given. `scale` is `window * refetch_fraction`, in microseconds.
pub record Settings : Type 0 where
  pub binder_factory : Option (Option Principal → Binder)
  pub max_skew : ℕ
  pub scale : ℕ → ℕ
  pub max_interval : ℕ

pub record Consumer : Type 0 where
  pub participant_id : String
  pub state : LineageState
  pub last_binding : Option ResponseBinding
  pub refetch_pending : Bool
  pub last_fetch_at : Option Instant
  pub hints_seen : ℕ
  pub hints_coalesced : ℕ
  pub fetches : ℕ

unfoldable pub new_consumer : String → Consumer
new_consumer participant = record {
  participant_id = participant;
  state = initial participant;
  last_binding = none;
  refetch_pending = false;
  last_fetch_at = none;
  hints_seen = 0;
  hints_coalesced = 0;
  fetches = 0;
}

-- `self.held is not None and hint.matches(self.held)`, for a hint that is given
abbrev pub announces : Platform → Option ChangeHint → Option Heartbeat → Raises Bool
announces p none held = ok false
announces p (some hint) none = ok false
announces p (some hint) (some h) = matches p hint h

abbrev pub is_held : Option Heartbeat → Bool
is_held none = false
is_held (some h) = true

-- `HeartbeatConsumer.is_fresh`
unfoldable pub lease_is_fresh : Consumer → Instant → Bool
unfolding is_fresh
lease_is_fresh c now = elim c.state.held [ none ↦ false | some h ↦ is_fresh h now ]

module _ (p : Platform) where
  -- Whether the hint scheduled a refetch.
  unfoldable pub on_hint : Consumer → Option ChangeHint → Consumer × Raises Bool
  on_hint c hint =
      let seen : Consumer = record c { hints_seen = c.hints_seen + 1 } in
      elim (announces p hint c.state.held) [
        | raise e ↦ (seen, raise e)
        | ok announced ↦
            if announced
            then (seen, ok false)
            else if c.refetch_pending
            then (record seen { hints_coalesced = c.hints_coalesced + 1 }, ok false)
            else (record seen { refetch_pending = true }, ok true)
      ]

  module _ (cfg : Settings) where
    unfoldable pub refetch_deadline : Consumer → Raises (Option Instant)
    unfolding add_delta
    refetch_deadline c = elim c.state.held [
      | none ↦ ok none
      | some h ↦ elim c.last_fetch_at [
        | none ↦ ok none
        | some last ↦
            add_delta last (pos (min (cfg.scale (h.expires_at - last)) cfg.max_interval)) >>= λ t.
            ok (some t)
      ]
    ]

    abbrev pub passed : Instant → Option Instant → Bool
    passed now none = true
    passed now (some deadline) = leb deadline now

    unfoldable pub due : Consumer → Instant → Raises Bool
    unfolding refetch_deadline
    due c now =
        if c.refetch_pending || not (is_held c.state.held)
        then ok true
        else refetch_deadline c >>= λ deadline. ok (passed now deadline)

    -- `_bind`
    unfoldable pub bind_response : Consumer → Option Principal → Option ResponseBinding
    bind_response c principal = elim cfg.binder_factory [
      | none ↦ none
      | some factory ↦ some (evaluate p (factory principal) c.participant_id)
    ]

    abbrev pub verdict : Consumer → Convergence → Option ResponseBinding → Option Reason → Verdict
    verdict c kind binding reason = record {
      convergence = kind;
      participant_id = c.participant_id;
      binding = binding;
      reason = reason;
      held = c.state.held;
    }

    -- what a returned admission means; `self.state = admission.state`
    abbrev pub settle : Consumer → Option ResponseBinding → Admission → Verdict × Consumer
    settle c binding a =
        let c' : Consumer = record c { state = a.state } in
        if a.duplicate then (verdict c' unchanged binding none, c') else elim a.reason [
          | some code ↦ (verdict c' refused binding (some (violation code)), c')
          | none ↦ (verdict c' advanced binding none, c')
        ]

    -- `except HeartbeatError`; any other exception leaves the method, with what was assigned kept
    abbrev pub reconcile :
        Consumer → Option ResponseBinding → Raises Admission → Raises Verdict × Consumer
    reconcile c binding (ok a) = let (v, c') = settle c binding a in (ok v, c')
    reconcile c binding (raise (heartbeat_error e)) =
        (ok (verdict c refused binding (some (violation (error_code e)))), c)
    reconcile c binding (raise value_error) = (raise value_error, c)
    reconcile c binding (raise unicode_encode_error) = (raise unicode_encode_error, c)
    reconcile c binding (raise overflow_error) = (raise overflow_error, c)
    reconcile c binding (raise type_error) = (raise type_error, c)
    reconcile c binding (raise (key_error k)) = (raise (key_error k), c)

    abbrev pub text_reason : OptionalText → Option Reason
    text_reason none = none
    text_reason (some s) = some (text s)

    -- The identity gate: only a response that is bound, or that no binder looks at, is reconciled.
    abbrev pub gate :
        Consumer → Option ResponseBinding → Raises Verdict × Consumer → Raises Verdict × Consumer
    gate c none go = go
    gate c (some b) go = elim (enforce b) [
      | raise e ↦
          (ok (verdict c identity_refused (some b) (some (text "principal_not_permitted"))), c)
      | ok b' ↦
          if is_bound b.binding
          then go
          else (ok (verdict c non_authoritative (some b) (text_reason b.reason)), c)
    ]

    -- the consumer once the source has answered
    abbrev pub after_fetch : Consumer → Instant → Option ResponseBinding → Consumer
    after_fetch c now binding = record c {
      refetch_pending = false;
      fetches = c.fetches + 1;
      last_fetch_at = some now;
      last_binding = binding;
    }

    unfoldable pub refetch : Consumer → Instant → Fetch → Raises Verdict × Consumer
    unfolding enforce
    refetch c now (failed name) =
        let c' : Consumer = record c { refetch_pending = false; fetches = c.fetches + 1 } in
        (ok (verdict c' unreachable none (some (text name))), c')
    refetch c now (fetched document principal) =
        let binding = bind_response c principal in
        let c' = after_fetch c now binding in
        gate c' binding (reconcile c' binding (admit p c'.state document now cfg.max_skew))

    abbrev pub poll_if :
        Consumer → Instant → Fetch → Raises Bool → Raises (Option Verdict) × Consumer
    poll_if c now answer (raise e) = (raise e, c)
    poll_if c now answer (ok false) = (ok none, c)
    poll_if c now answer (ok true) =
        let (v, c') = refetch c now answer in (v >>= λ w. ok (some w), c')

    -- Refetch if one is owed.
    unfoldable pub poll : Consumer → Instant → Fetch → Raises (Option Verdict) × Consumer
    poll c now answer = poll_if c now answer (due c now)

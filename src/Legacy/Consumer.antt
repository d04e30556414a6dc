-- ===== src/Legacy/Consumer.antt =====
-- src/mcp_heartbeat_legacy/resources.py: `LegacyHeartbeatConsumer`. What the source answers is an
-- argument of `legacy_refetch`.
pub mod Refusals
use mcp_heartbeat.Prelude.{
  Bool, Option, String, false, if◌then◌else◌, inl, inr, none, not, ok, raise, same, some, true, ℕ,
  ◌&&◌, ◌+◌, ◌>>=◌, ◌||◌, ◌⊎◌,
}
use mcp_heartbeat.Json.{Json, get, null, obj, truthy}
use mcp_heartbeat.Platform.{Instant, Platform, show}
use mcp_heartbeat.Core.Errors.{Raises, ViolationCode, schema_invalid}
use mcp_heartbeat.Core.Lineage.{
  Admission, LineageState, accepted, admit, default_max_skew, initial, refusal,
}
use mcp_heartbeat.Core.Model.{Heartbeat, IdentityBinding, digest, identity, unbound, unverified}
use mcp_heartbeat.Current.Convergence.{refused}
use mcp_heartbeat.Legacy.Identity.{Evidence, SessionBinder, evidence, unverified_evidence}
use mcp_heartbeat.Legacy.Negotiation.{EraReport}
use mcp_heartbeat.Legacy.Resources.{LegacyHint, carries_metadata}
use mcp_heartbeat.Legacy.Session.ClientSide.{Client, client_heartbeat_ready, client_report}

pub data LegacyRefusal : Type 0 where
  refused_unbound refused_not_negotiated : LegacyRefusal

-- `LegacyFetchOutcome`
pub record FetchOutcome : Type 0 where
  pub admission : Admission
  pub identity : Evidence
  pub era : EraReport
  pub hint_corroborated : Option Bool
  pub refused : Option LegacyRefusal

abbrev pub is_refused : Option LegacyRefusal → Bool
is_refused none = false
is_refused (some r) = true

-- the properties `accepted`, `duplicate` and `reason`
unfoldable pub fetch_accepted : FetchOutcome → Bool
unfolding accepted
fetch_accepted o = not (is_refused o.refused) && accepted o.admission

unfoldable pub fetch_duplicate : FetchOutcome → Bool
fetch_duplicate o = not (is_refused o.refused) && o.admission.duplicate

unfoldable pub fetch_reason : FetchOutcome → Option (LegacyRefusal ⊎ ViolationCode)
fetch_reason o = elim o.refused [
  | some r ↦ some (inl r)
  | none ↦ elim o.admission.reason [ none ↦ none | some code ↦ some (inr code) ]
]

-- `LegacyHeartbeatConsumer`
pub record LegacyConsumer : Type 0 where
  pub participant_id : String
  pub session : Client
  pub binder : Option SessionBinder
  pub state : LineageState
  pub uncorroborated_hints : ℕ

unfoldable pub new_legacy_consumer : String → Client → Option SessionBinder → LegacyConsumer
new_legacy_consumer participant session binder = record {
  participant_id = participant;
  session = session;
  binder = binder;
  state = initial participant;
  uncorroborated_hints = 0;
}

-- `document.get(name) if isinstance(document, Mapping) else None`
abbrev pub member_of : String → Json → Json
member_of name (obj fs) = get name fs
member_of name _ = null

module _ (p : Platform) where
  -- `str(value or default)`
  abbrev pub show_or : String → Json → String
  show_or default value = if truthy value then show p value else default

  -- `_evidence`
  unfoldable pub evidence_of : LegacyConsumer → String → String → Evidence
  evidence_of c claimed epoch = elim c.binder [
    | none ↦ unverified_evidence (some claimed)
    | some b ↦
        evidence p b
          (record { participant_id = some claimed; epoch_id = some epoch; binding = unverified })
  ]

  -- the evidence for what a document claims
  abbrev pub claim_evidence : LegacyConsumer → Json → Evidence
  claim_evidence c document =
      evidence_of c (show_or c.participant_id (member_of "node_id" document))
        (show_or "" (member_of "boot_id" document))

  abbrev pub is_unbound : IdentityBinding → Bool
  is_unbound unbound = true
  is_unbound _ = false

  -- The digest of a hint against what is held, and whether the hint had none.
  abbrev pub corroborate : Option LegacyHint → Option Heartbeat → Raises (Option Bool × ℕ)
  corroborate none held = ok (none, 0)
  corroborate (some hint) none = ok (none, 0)
  corroborate (some hint) (some h) =
      if carries_metadata hint
      then (digest p h >>= λ d. ok (some (same hint.digest (some d)), 0))
      else ok (none, 1)

  abbrev pub checked_hint : Admission → Option LegacyHint → Raises (Option Bool × ℕ)
  checked_hint a hint =
      if accepted a || a.duplicate then corroborate hint a.state.held else ok (none, 0)

  -- an outcome with its hint compared; an exception of the digest leaves the consumer as it was
  abbrev pub taken :
      LegacyConsumer
      → Evidence
      → Admission
      → Raises (Option Bool × ℕ)
      → Raises FetchOutcome × LegacyConsumer
  taken c e a (raise x) = (raise x, c)
  taken c e a (ok (corroborated, missed)) = (
    ok (record {
      admission = a;
      identity = e;
      era = client_report c.session;
      hint_corroborated = corroborated;
      refused = none;
    }),
    record c {
      state = (if accepted a then a.state else c.state);
      uncorroborated_hints = c.uncorroborated_hints + missed;
    },
  )

  -- an outcome of `admit`, against the evidence of the publisher
  abbrev pub decide :
      LegacyConsumer
      → Option LegacyHint
      → Evidence
      → Admission
      → Raises FetchOutcome × LegacyConsumer
  decide c hint e a =
      if is_unbound e.binding
      then (
        ok (record {
          admission = a;
          identity = e;
          era = client_report c.session;
          hint_corroborated = none;
          refused = some refused_unbound;
        }),
        c,
      )
      else taken c e a (checked_hint a hint)

  -- `admit` with its default skew; an exception leaves the consumer as it was
  abbrev pub after_answer :
      LegacyConsumer
      → Option LegacyHint
      → Json
      → Raises Admission
      → Raises FetchOutcome × LegacyConsumer
  after_answer c hint document (raise e) = (raise e, c)
  after_answer c hint document (ok a) = decide c hint (claim_evidence c document) a

  -- `refetch`, where the source returns a document or raises
  unfoldable pub legacy_refetch :
      LegacyConsumer
      → Instant
      → Option LegacyHint
      → Raises Json
      → Raises FetchOutcome × LegacyConsumer
  unfolding client_heartbeat_ready client_report carries_metadata accepted evidence_of
      unverified_evidence
  legacy_refetch c now hint answer =
      if not (client_heartbeat_ready c.session)
      then (
        ok (record {
          admission = refusal c.state schema_invalid;
          identity = unverified_evidence (some c.participant_id);
          era = client_report c.session;
          hint_corroborated = none;
          refused = some refused_not_negotiated;
        }),
        c,
      )
      else elim answer [
        | raise e ↦ (raise e, c)
        | ok document ↦ after_answer c hint document (admit p c.state document now default_max_skew)
      ]

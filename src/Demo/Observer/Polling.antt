-- ===== src/Demo/Observer/Polling.antt =====
-- An observer that polls a participant.
use mathlib.Core.Path.{subst}
use mcp_heartbeat.Prelude.{
  Result-cases, String, ap, false, inl, inr, ok, raise, refl, sym, true, ℕ, ◌∙◌, ◌≡◌,
}
use mcp_heartbeat.Json.{Fields, obj}
use mcp_heartbeat.Platform.{Instant, Platform}
use mcp_heartbeat.Core.Errors.{Raises}
use mcp_heartbeat.Core.Lineage.{Admission, LineageState, accepted, admit, admitted, hold}
use mcp_heartbeat.Core.Model.{Heartbeat, digest}
use mcp_heartbeat.Demo.Observer.{
  Observer, Transition, append_transition, poll_document, transition_of,
}
use mcp_heartbeat.Demo.Publisher.{Participant, no_fields, participant_heartbeat}
use mcp_heartbeat.Core.Lineage.Documents.{admit-redelivery, redelivered}

-- A poll of what the publisher answered: a document, or an exception that is raised here too.
abbrev pub polled_answer :
    Platform → ℕ → Observer → Instant → String → Raises Fields → Raises Admission × Observer
polled_answer p skew o now stamp (ok document) = poll_document p skew o document now stamp
polled_answer p skew o now stamp (raise e) = (raise e, o)

-- one poll of a participant
abbrev pub polled_once :
    Platform → ℕ → Participant → Observer → Instant → String → Raises Admission × Observer
polled_once p skew d o now stamp =
    polled_answer p skew o now stamp (participant_heartbeat p d now).0

append_transition-state :
    (o : Observer) (a : Admission) (r : Raises Transition)
    → (append_transition o a r).1.state ≡ o.state
append_transition-state o a (ok t) = refl
append_transition-state o a (raise e) = refl

module _ (p : Platform) (skew : ℕ) where
  frozen_document :
      (d : Participant) (now : Instant)
      → d.frozen ≡ true
      → no_fields d.last ≡ false
      → (participant_heartbeat p d now).0 ≡ ok d.last
  unfolding participant_heartbeat
  frozen_document d now f l = rw (f, l) refl

  -- an accepted document leaves its state, whatever is then recorded of it
  taken-state :
      (o : Observer) (document : Fields) (now : Instant) (stamp : String) (h : Heartbeat)
      → admit p o.state (obj document) now skew ≡ ok (admitted (hold o.state h))
      → (poll_document p skew o document now stamp).1.state ≡ hold o.state h
  unfolding poll_document accepted
  taken-state o document now stamp h a = rw a (
      append_transition-state (record o { state = hold o.state h }) (admitted (hold o.state h))
        (transition_of stamp document))

  -- a duplicate is recorded nowhere, and neither is an exception
  duplicate_recorded :
      (o : Observer) (document : Fields) (now : Instant) (stamp : String) (s : LineageState)
      (h : Heartbeat)
      → admit p o.state (obj document) now skew ≡ redelivered p s h
      → poll_document p skew o document now stamp ≡ (redelivered p s h, o)
  unfolding poll_document accepted
  duplicate_recorded o document now stamp s h a = elim (Result-cases (digest p h)) [
    | inl (d, q) ↦ rw (a, q) refl
    | inr (e, q) ↦ rw (a, q) refl
  ]

  -- When a participant is frozen and has issued a document, and an observer admits that
  -- document: one poll of the participant leaves the observer in the state that holds its
  -- heartbeat, even when the record of it raises; and the next poll, at any instant, leaves
  -- the observer as it is, with no further transition or refusal, and is a duplicate, or
  -- raises what the digest of the heartbeat raises where it cannot be encoded in UTF-8.
  pub poll_frozen :
      (d : Participant) (o : Observer) (now soon : Instant) (stamp stamp' : String) (h : Heartbeat)
      → d.frozen ≡ true
      → no_fields d.last ≡ false
      → admit p o.state (obj d.last) now skew ≡ ok (admitted (hold o.state h))
      → let o' = (polled_once p skew d o now stamp).1 in
        (o'.state ≡ hold o.state h)
        × (polled_once p skew d o' soon stamp' ≡ (redelivered p (hold o.state h) h, o'))
  poll_frozen d o now soon stamp stamp' h f l a =
      let o' = (poll_document p skew o d.last now stamp).1 in
      let state : o'.state ≡ hold o.state h = taken-state o d.last now stamp h a in
      let again : admit p o'.state (obj d.last) soon skew ≡ redelivered p (hold o.state h) h =
        rw state (admit-redelivery p o.state (obj d.last) now soon skew skew h a) in
      let first =
        ap (λ (r : Raises Fields). (polled_answer p skew o now stamp r).1)
          (frozen_document d now f l) in
      let second =
        ap (λ (r : Raises Fields). polled_answer p skew o' soon stamp' r)
          (frozen_document d soon f l) in
      subst
        (λ (x : Observer).
          (x.state ≡ hold o.state h)
          × (polled_once p skew d x soon stamp' ≡ (redelivered p (hold o.state h) h, x)))
        (sym first)
        (state, second ∙ duplicate_recorded o' d.last soon stamp' (hold o.state h) h again)

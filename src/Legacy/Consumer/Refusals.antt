-- ===== src/Legacy/Consumer/Refusals.antt =====
-- What a refetch of `LegacyHeartbeatConsumer` takes over.
use mcp_heartbeat.Prelude.{
  Bool-cases, Option, ap, arith, false, inl, inr, ok, raise, refl, true, ◌∙◌, ◌≡◌, ◌⊎◌,
}
use mcp_heartbeat.Json.{Json}
use mcp_heartbeat.Platform.{Instant, Platform}
use mcp_heartbeat.Core.Errors.{Raises}
use mcp_heartbeat.Core.Lineage.{Admission, accepted, admit, admitted, default_max_skew, hold}
use mcp_heartbeat.Core.Model.{Heartbeat}
use mcp_heartbeat.Legacy.Consumer.{
  LegacyConsumer, after_answer, claim_evidence, decide, is_unbound, legacy_refetch,
}
use mcp_heartbeat.Legacy.Identity.{Evidence}
use mcp_heartbeat.Legacy.Resources.{LegacyHint}
use mcp_heartbeat.Core.Lineage.Outcomes.{accepted-holds}
use mcp_heartbeat.Legacy.Session.ClientSide.{client_heartbeat_ready}

module _ (p : Platform) where
  decide-state :
      (c : LegacyConsumer) (hint : Option LegacyHint) (e : Evidence) (a : Admission)
      → ((decide p c hint e a).1.state ≡ c.state)
        ⊎ ((is_unbound p e.binding ≡ false)
            × (accepted a ≡ true)
            × ((decide p c hint e a).1.state ≡ a.state))
  decide-state c hint e a = ground arith

  after_answer-state :
      (c : LegacyConsumer) (hint : Option LegacyHint) (document : Json) (now : Instant)
      (r : Raises Admission)
      → admit p c.state document now default_max_skew ≡ r
      → ((after_answer p c hint document r).1.state ≡ c.state)
        ⊎ ((h : Heartbeat) × (is_unbound p (claim_evidence p c document).binding ≡ false)
            × (r ≡ ok (admitted (hold c.state h)))
            × ((after_answer p c hint document r).1.state ≡ hold c.state h))
  after_answer-state c hint document now (raise e) q = inl refl
  after_answer-state c hint document now (ok a) q =
      elim (decide-state c hint (claim_evidence p c document) a) [
        | inl kept ↦ inl kept
        | inr (free, yes_, moved) ↦
            let (h, e, v) = accepted-holds p c.state document now default_max_skew a q yes_ in
            inr (h, free, ap ok e, moved ∙ ap (λ (a : Admission). a.state) e)
      ]

  -- After `refetch` of the legacy consumer, with any hint and any answer of the source, the
  -- lineage state is as it was, or the session negotiated the heartbeat and is ready, the
  -- binder does not call the publisher unbound, and the consumer holds the heartbeat for
  -- which `admit` accepted the document.
  pub legacy_refetch-state :
      (c : LegacyConsumer) (now : Instant) (hint : Option LegacyHint) (answer : Raises Json)
      → let (r, d) = legacy_refetch p c now hint answer in
        (d.state ≡ c.state)
        ⊎ ((document : Json) × (h : Heartbeat) × (answer ≡ ok document)
            × (client_heartbeat_ready c.session ≡ true)
            × (is_unbound p (claim_evidence p c document).binding ≡ false)
            × (admit p c.state document now default_max_skew ≡ ok (admitted (hold c.state h)))
            × (d.state ≡ hold c.state h))
  unfolding legacy_refetch
  legacy_refetch-state c now hint (raise e) = inl (ground arith)
  legacy_refetch-state c now hint (ok document) =
      elim (Bool-cases (client_heartbeat_ready c.session)) [
        | inl e ↦
            elim (after_answer-state c hint document now
              (admit p c.state document now default_max_skew) refl) [
                | inl kept ↦ inl (rw e kept)
                | inr (h, free, q, moved) ↦ inr (document, h, refl, e, free, q, rw e moved)
              ]
        | inr e ↦ inl (rw e refl)
      ]

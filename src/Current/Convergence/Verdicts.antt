-- ===== src/Current/Convergence/Verdicts.antt =====
-- What the verdict of a refetch says of the consumer that it leaves behind.
use mcp_heartbeat.Prelude.{Option, ap, arith, none, ok, raise, refl, some, true, ◌∙◌, ◌≡◌}
use mcp_heartbeat.Json.{Json}
use mcp_heartbeat.Platform.{Instant, Platform}
use mcp_heartbeat.Core.Errors.{
  Raises, heartbeat_error, key_error, overflow_error, type_error, unicode_encode_error, value_error,
}
use mcp_heartbeat.Core.Lineage.{Admission, LineageState, accepted, admit, admitted, hold}
use mcp_heartbeat.Core.Model.{Heartbeat, bound, is_fresh}
use mcp_heartbeat.Current.Convergence.{
  Consumer, Settings, Verdict, advanced, after_fetch, bind_response, fetched, gate, lease_is_fresh,
  reconcile, refetch,
}
use mcp_heartbeat.Current.Identity.{Principal, ResponseBinding, enforce}
use mcp_heartbeat.Core.Lineage.Outcomes.{accepted-holds}
use mcp_heartbeat.Core.Lineage.Rules.{Supersedes}

-- The publisher was bound, or no binder was asked.
abbrev pub MayPublish : Option ResponseBinding → Type 0
MayPublish none = Unit
MayPublish (some b) = b.binding ≡ bound

module _ (p : Platform) (cfg : Settings) where
  fresh_of_Supersedes :
      (s : LineageState) (h : Heartbeat) (now : Instant)
      → Supersedes s h now cfg.max_skew
      → is_fresh h now ≡ true
  unfolding is_fresh
  fresh_of_Supersedes s h now v = ground arith

  reconcile-advanced :
      (c d : Consumer) (b : Option ResponseBinding) (r : Raises Admission) (v : Verdict)
      → reconcile p cfg c b r ≡ (ok v, d)
      → v.convergence ≡ advanced
      → (a : Admission) × (r ≡ ok a)
        × (accepted a ≡ true)
        × (d.state ≡ a.state)
        × (v.held ≡ a.state.held)
  unfolding accepted
  reconcile-advanced c d b (ok a) v e q = (a, refl, ground arith, ground arith, ground arith)
  reconcile-advanced c d b (raise (heartbeat_error x)) v e q = ground arith
  reconcile-advanced c d b (raise value_error) v e q = ground arith
  reconcile-advanced c d b (raise overflow_error) v e q = ground arith
  reconcile-advanced c d b (raise type_error) v e q = ground arith
  reconcile-advanced c d b (raise unicode_encode_error) v e q = ground arith
  reconcile-advanced c d b (raise (key_error k)) v e q = ground arith

  gate-advanced :
      (c d : Consumer) (b : Option ResponseBinding) (go : Raises Verdict × Consumer) (v : Verdict)
      → gate p cfg c b go ≡ (ok v, d)
      → v.convergence ≡ advanced
      → (go ≡ (ok v, d)) × MayPublish b
  unfolding enforce
  gate-advanced c d none go v e q = (e, tt)
  gate-advanced c d (some b) go v e q = ground arith

  refetch-advanced :
      (c d : Consumer) (now : Instant) (document : Json) (principal : Option Principal)
      (v : Verdict)
      → refetch p cfg c now (fetched document principal) ≡ (ok v, d)
      → v.convergence ≡ advanced
      → MayPublish (bind_response p cfg c principal)
        × ((h : Heartbeat) × (admit p c.state document now cfg.max_skew
              ≡ ok (admitted (hold c.state h)))
            × (d.state ≡ hold c.state h)
            × (v.held ≡ some h)
            × (lease_is_fresh d now ≡ true))
  unfolding refetch lease_is_fresh
  refetch-advanced c d now document principal v e q =
      let b = bind_response p cfg c principal in
      let c' = after_fetch p cfg c now b in
      let r = admit p c.state document now cfg.max_skew in
      let (through, may) = gate-advanced c' d b (reconcile p cfg c' b r) v e q in
      let (a, ra, acc, sa, va) = reconcile-advanced c' d b r v through q in
      let (h, ha, sup) = accepted-holds p c.state document now cfg.max_skew a ra acc in
      let held : d.state ≡ hold c.state h = sa ∙ ap (λ (a : Admission). a.state) ha in
      (
        may,
        (
          h,
          ra ∙ ap ok ha,
          held,
          va ∙ ap (λ (a : Admission). a.state.held) ha,
          rw held (fresh_of_Supersedes c.state h now sup),
        ),
      )

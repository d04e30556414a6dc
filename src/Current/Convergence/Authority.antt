-- ===== src/Current/Convergence/Authority.antt =====
-- What moves the held lease of a `HeartbeatConsumer`.
use mcp_heartbeat.Prelude.{
  Bool, Bool-cases, List, Option, String, [], ap, arith, false, inl, inr, none, ok, raise, refl,
  some, true, ◌∙◌, ◌∷◌, ◌≡◌, ◌⊎◌,
}
use mcp_heartbeat.Json.{Json}
use mcp_heartbeat.Platform.{Instant, Platform}
use mcp_heartbeat.Core.Errors.{
  Raises, heartbeat_error, key_error, overflow_error, type_error, unicode_encode_error, value_error,
}
use mcp_heartbeat.Core.Lineage.{Admission, LineageState, accepted, admit, admitted, hold}
use mcp_heartbeat.Core.Model.{Heartbeat}
use mcp_heartbeat.Core.Ports.{ChangeHint}
use mcp_heartbeat.Current.Convergence.{
  Consumer, Fetch, Settings, Verdict, after_fetch, bind_response, due, failed, fetched, gate,
  on_hint, poll, poll_if, reconcile, refetch, settle,
}
use mcp_heartbeat.Current.Identity.{Principal, ResponseBinding, enforce, is_bound}
use mcp_heartbeat.Core.Lineage.History.{Reach, Step, next, step}
use mcp_heartbeat.Core.Lineage.Outcomes.{accepted-holds, admit-state_of_refusal}
use mcp_heartbeat.Current.Convergence.Hints.{on_hint-SameLease}

module _ (p : Platform) (cfg : Settings) where
  settle_state :
      (c : Consumer) (b : Option ResponseBinding) (a : Admission)
      → (settle p cfg c b a).1.state ≡ a.state
  settle_state c b a = ground arith

  -- When the binder of a consumer evaluates the principal of a response to a binding that is
  -- not BOUND, `refetch` leaves the lineage state as it was, whatever the document is,
  -- records the binding and clears the pending flag.
  pub refetch_not_bound :
      (c : Consumer) (now : Instant) (document : Json) (principal : Option Principal)
      (b : ResponseBinding)
      → bind_response p cfg c principal ≡ some b
      → is_bound b.binding ≡ false
      → let (v, d) = refetch p cfg c now (fetched document principal) in
        (d.state ≡ c.state) × (d.last_binding ≡ some b) × (d.refetch_pending ≡ false)
  unfolding refetch
  refetch_not_bound c now document principal b e nb = rw e (ground (arith, nb))

  -- No answer leaves the lease and its evidence alone.
  pub refetch_failed :
      (c : Consumer) (now : Instant) (name : String)
      → let (v, d) = refetch p cfg c now (failed name) in
        (d.state ≡ c.state)
        × (d.last_fetch_at ≡ c.last_fetch_at)
        × (d.last_binding ≡ c.last_binding)
  unfolding refetch
  refetch_failed c now name = (refl, refl, refl)

  reconcile_state :
      (c : Consumer) (b : Option ResponseBinding) (r : Raises Admission)
      → ((reconcile p cfg c b r).1.state ≡ c.state)
        ⊎ ((a : Admission) × (r ≡ ok a) × ((reconcile p cfg c b r).1.state ≡ a.state))
  reconcile_state c b (ok a) = inr (a, refl, settle_state c b a)
  reconcile_state c b (raise (heartbeat_error e)) = inl refl
  reconcile_state c b (raise value_error) = inl refl
  reconcile_state c b (raise overflow_error) = inl refl
  reconcile_state c b (raise type_error) = inl refl
  reconcile_state c b (raise unicode_encode_error) = inl refl
  reconcile_state c b (raise (key_error k)) = inl refl

  gate_state :
      (c : Consumer) (b : Option ResponseBinding) (go : Raises Verdict × Consumer)
      → ((gate p cfg c b go).1.state ≡ c.state) ⊎ (gate p cfg c b go ≡ go)
  unfolding enforce
  gate_state c none go = inr refl
  gate_state c (some b) go = ground arith

  admission_holds :
      (s t : LineageState) (document : Json) (now : Instant) (a : Admission)
      → admit p s document now cfg.max_skew ≡ ok a
      → t ≡ a.state
      → (t ≡ s)
        ⊎ ((h : Heartbeat) × (admit p s document now cfg.max_skew ≡ ok (admitted (hold s h)))
            × (t ≡ hold s h))
  admission_holds s t document now a e q = elim (Bool-cases (accepted a)) [
    | inl y ↦
        let (h, ha, sup) = accepted-holds p s document now cfg.max_skew a e y in
        inr (h, e ∙ ap ok ha, q ∙ ap (λ (a : Admission). a.state) ha)
    | inr n ↦ inl (q ∙ admit-state_of_refusal p s document now cfg.max_skew a e n)
  ]

  -- A refetch leaves the lineage as it was, or holds what was admitted of its own document.
  pub refetch-holds :
      (c : Consumer) (now : Instant) (document : Json) (principal : Option Principal)
      → let d = (refetch p cfg c now (fetched document principal)).1 in
        (d.state ≡ c.state)
        ⊎ ((h : Heartbeat) × (admit p c.state document now cfg.max_skew
              ≡ ok (admitted (hold c.state h)))
            × (d.state ≡ hold c.state h))
  unfolding refetch
  refetch-holds c now document principal =
      let binding = bind_response p cfg c principal in
      let c' = after_fetch p cfg c now binding in
      let r = admit p c.state document now cfg.max_skew in
      let go = reconcile p cfg c' binding r in
      elim (gate_state c' binding go) [
        | inl kept ↦ inl kept
        | inr through ↦ elim (reconcile_state c' binding r) [
          | inl kept ↦ inl (ap (λ (g : Raises Verdict × Consumer). g.1.state) through ∙ kept)
          | inr (a, e, q) ↦
              admission_holds c.state (gate p cfg c' binding go).1.state document now a e
                (ap (λ (g : Raises Verdict × Consumer). g.1.state) through ∙ q)
        ]
      ]

  -- A refetch, returning or raising, leaves the lineage as it was or takes one step of it.
  pub refetch-Step :
      (c : Consumer) (now : Instant) (answer : Fetch)
      → let (v, d) = refetch p cfg c now answer in
        (d.state ≡ c.state) ⊎ Step p cfg.max_skew c.state d.state
  unfolding refetch
  refetch-Step c now (failed name) = inl refl
  refetch-Step c now (fetched document principal) = elim (refetch-holds c now document principal) [
    | inl kept ↦ inl kept
    | inr (h, e, q) ↦ inr (step document now (admitted (hold c.state h)) e q)
  ]

  -- Refetches, hints and polls in any order.
  pub data Event : Type 0 where
    hinted : Option ChangeHint → Event
    polled : Instant → Fetch → Event

  unfoldable pub react : Consumer → Event → Consumer
  react c (hinted hint) = (on_hint p c hint).0
  react c (polled now answer) = (poll p cfg c now answer).1

  unfoldable pub run : Consumer → List Event → Consumer
  unfolding react
  run c [] = c
  run c (e ∷ es) = run (react c e) es

  poll_if-Step :
      (c : Consumer) (now : Instant) (answer : Fetch) (owed : Raises Bool)
      → let (v, d) = poll_if p cfg c now answer owed in
        (d.state ≡ c.state) ⊎ Step p cfg.max_skew c.state d.state
  poll_if-Step c now answer (raise e) = inl refl
  poll_if-Step c now answer (ok false) = inl refl
  poll_if-Step c now answer (ok true) = refetch-Step c now answer

  poll-Step :
      (c : Consumer) (now : Instant) (answer : Fetch)
      → let (v, d) = poll p cfg c now answer in
        (d.state ≡ c.state) ⊎ Step p cfg.max_skew c.state d.state
  unfolding poll
  poll-Step c now answer = poll_if-Step c now answer (due p cfg c now)

  react-Reach :
      (s : LineageState) (c : Consumer) (e : Event)
      → Reach p cfg.max_skew s c.state
      → Reach p cfg.max_skew s (react c e).state
  unfolding react
  react-Reach s c (hinted hint) r = rw (on_hint-SameLease p c hint).state r
  react-Reach s c (polled now answer) r = elim (poll-Step c now answer) [
    | inl q ↦ rw q r
    | inr st ↦ next r st
  ]

  run-Reach :
      (s : LineageState) (c : Consumer) (events : List Event)
      → Reach p cfg.max_skew s c.state
      → Reach p cfg.max_skew s (run c events).state
  unfolding run
  run-Reach s c [] r = r
  run-Reach s c (e ∷ es) r = run-Reach s (react c e) es (react-Reach s c e r)

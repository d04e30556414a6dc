-- ===== src/Conformance/Fleet/Lineage.antt =====
-- Whatever a fleet does, its consumer holds what one replica issued, and follows one lineage.
use mathlib.Core.Path.{subst}
use mcp_heartbeat.Prelude.{
  Bool, List, Option, Option-cases, OptionalText, String, [], ap, false, get_elem?, if◌then◌else◌,
  inl, inr, none, refl, same, some, true, ℕ, ◌∷◌, ◌≡◌, ◌⊎◌,
}
use mcp_heartbeat.Platform.{Instant, Platform}
use mcp_heartbeat.Conformance.Fleet.{
  Fleet, FleetEvent, Gateway, Replica, answer_from, beats, cut, fleet_run, fleet_step,
  gateway_fetch, hint_arrives, new_fleet, new_replica, pinned_to, refetched, replica_document,
  repointed, route_replica, routed, starts, time_passes,
}
use mcp_heartbeat.Core.Lineage.{LineageState}
use mcp_heartbeat.Core.Model.{Heartbeat}
use mcp_heartbeat.Core.Producer.{FakeClock}
use mcp_heartbeat.Current.Convergence.{
  Consumer, Fetch, Settings, failed, fetched, new_consumer, refetch,
}
use mcp_heartbeat.Conformance.Fleet.Replicas.{
  AllLive, AllLive-get_elem?, Found, FromPool-get_elem?, Grows, HeldFrom, IsLive, beaten-Grows,
  new_replica-IsLive, parsed-IsOf, started-Grows,
}
use mcp_heartbeat.Core.Lineage.History.{IsGone, Reach, Reach-IsGone, here, next}
use mcp_heartbeat.Core.Lineage.Outcomes.{admitted_sound}
use mcp_heartbeat.Current.Convergence.Authority.{refetch-Step, refetch-holds, refetch_failed}
use mcp_heartbeat.Current.Convergence.Hints.{on_hint-SameLease}

-- an answer of the gateway: none, or the document of a replica of the pool
abbrev IsAnswer : Platform → List Replica → Fetch → Type 0
IsAnswer p pool answer =
    ((name : String) × (answer ≡ failed name))
    ⊎ ((ref : ℕ) × (r : Replica) × (get_elem? pool ref ≡ some r)
        × (answer ≡ fetched (replica_document p r) none))

-- what the consumer holds, some replica of the pool has issued
pub record FleetIsSound (w : Fleet) : Type 0 where
  pub live : AllLive w.pool
  pub held : HeldFrom w.consumer.state.held w.pool

module _ (p : Platform) where
  routed-IsAnswer :
      (pool : List Replica) (ref : Option ℕ) (g : Gateway)
      → IsAnswer p pool (answer_from p (routed pool ref) g).0
  routed-IsAnswer pool none g = inl ("ZeroDivisionError", refl)
  routed-IsAnswer pool (some ref) g = elim (Option-cases (get_elem? pool ref)) [
    | inl e ↦ rw e (inl ("ZeroDivisionError", refl))
    | inr (r, e) ↦ inr (ref, r, e, ap (λ (o : Option Replica). (answer_from p o g).0) e)
  ]

  either-IsAnswer :
      (pool : List Replica) (b : Bool) (x y : Fetch × Gateway)
      → IsAnswer p pool x.0
      → IsAnswer p pool y.0
      → IsAnswer p pool (if b then x else y).0
  either-IsAnswer pool true x y h k = h
  either-IsAnswer pool false x y h k = k

  gateway_fetch-IsAnswer :
      (pool : List Replica) (g : Gateway) → IsAnswer p pool (gateway_fetch p pool g).0
  unfolding gateway_fetch
  gateway_fetch-IsAnswer pool g =
      either-IsAnswer pool g.unreachable (failed "ConnectionError", g)
        (answer_from p (routed pool (route_replica g).0) (route_replica g).1)
        (inl ("ConnectionError", refl))
        (routed-IsAnswer pool (route_replica g).0 (route_replica g).1)

  module _ (cfg : Settings) where
    refetch-HeldFrom :
        (pool : List Replica) (c : Consumer) (now : Instant) (answer : Fetch)
        → AllLive pool
        → IsAnswer p pool answer
        → HeldFrom c.state.held pool
        → HeldFrom (refetch p cfg c now answer).1.state.held pool
    refetch-HeldFrom pool c now answer l (inl (name, e)) f =
        rw e (rw (refetch_failed p cfg c now name).0 f)
    refetch-HeldFrom pool c now answer l (inr (ref, r, e, q)) f =
        rw q (elim (refetch-holds p cfg c now (replica_document p r) none) [
          | inl same ↦ rw same f
          | inr (h, a, s) ↦
              let live = subst (Found IsLive) e (AllLive-get_elem? pool ref l) in
              let parsed =
                (admitted_sound p c.state (replica_document p r) now cfg.max_skew h a).1 in
              rw s (FromPool-get_elem? h pool ref r e (parsed-IsOf p r.current h r parsed live.1))
        ])

    HeldFrom-Grows :
        (o : Option Heartbeat) {rs ss : List Replica} → Grows rs ss → HeldFrom o rs → HeldFrom o ss
    HeldFrom-Grows none g f = tt
    HeldFrom-Grows (some h) g f = g.keeps h f

    fleet_step-FleetIsSound :
        (w : Fleet) (e : FleetEvent) → FleetIsSound w → FleetIsSound (fleet_step p cfg w e)
    unfolding fleet_step
    fleet_step-FleetIsSound w (time_passes d) s = record { live = s.live; held = s.held }
    fleet_step-FleetIsSound w (starts epoch drawn lease) s =
        let g =
          started-Grows w.pool (new_replica epoch drawn lease w.clock)
            (new_replica-IsLive epoch drawn lease w.clock) s.live in
        record { live = g.live; held = HeldFrom-Grows w.consumer.state.held g s.held }
    fleet_step-FleetIsSound w (beats ref) s =
        let g = beaten-Grows w.clock w.pool ref s.live in
        record { live = g.live; held = HeldFrom-Grows w.consumer.state.held g s.held }
    fleet_step-FleetIsSound w (repointed refs) s = record { live = s.live; held = s.held }
    fleet_step-FleetIsSound w (pinned_to ref) s = record { live = s.live; held = s.held }
    fleet_step-FleetIsSound w (cut state) s = record { live = s.live; held = s.held }
    fleet_step-FleetIsSound w (hint_arrives hint) s = record {
      live = s.live;
      held = rw (on_hint-SameLease p w.consumer hint).state s.held;
    }
    fleet_step-FleetIsSound w refetched s = record {
      live = s.live;
      held =
          refetch-HeldFrom w.pool w.consumer w.clock.wall (gateway_fetch p w.pool w.gateway).0
            s.live (gateway_fetch-IsAnswer w.pool w.gateway) s.held;
    }

    fleet_run-keeps :
        (w : Fleet) (es : List FleetEvent) → FleetIsSound w → FleetIsSound (fleet_run p cfg w es)
    unfolding fleet_run
    fleet_run-keeps w [] s = s
    fleet_run-keeps w (e ∷ es) s =
        fleet_run-keeps (fleet_step p cfg w e) es (fleet_step-FleetIsSound w e s)

    -- From a fleet without replicas, after any list of events (replicas that start, with
    -- any epoch, and beat, a gateway that is repointed, pinned or cut, hints, refetches,
    -- time that passes): each replica's current heartbeat is of the fleet's participant, of
    -- the epoch of its issuer and below its counter; and a heartbeat that the consumer
    -- holds is of the participant, of the epoch of a replica that was started and below the
    -- counter of its issuer.
    pub fleet_run-FleetIsSound :
        (clock : FakeClock) (refs : List ℕ) (es : List FleetEvent)
        → FleetIsSound (fleet_run p cfg (new_fleet clock [] refs) es)
    unfolding new_fleet new_consumer
    fleet_run-FleetIsSound clock refs es =
        fleet_run-keeps (new_fleet clock [] refs) es (record { live = tt; held = tt })

    fleet_step-Reach :
        (s : LineageState) (w : Fleet) (e : FleetEvent)
        → Reach p cfg.max_skew s w.consumer.state
        → Reach p cfg.max_skew s (fleet_step p cfg w e).consumer.state
    unfolding fleet_step
    fleet_step-Reach s w (hint_arrives hint) r = rw (on_hint-SameLease p w.consumer hint).state r
    fleet_step-Reach s w refetched r =
        elim (refetch-Step p cfg w.consumer w.clock.wall (gateway_fetch p w.pool w.gateway).0) [
          | inl q ↦ rw q r
          | inr st ↦ next r st
        ]
    fleet_step-Reach s w (time_passes d) r = r
    fleet_step-Reach s w (starts epoch drawn lease) r = r
    fleet_step-Reach s w (beats ref) r = r
    fleet_step-Reach s w (repointed refs) r = r
    fleet_step-Reach s w (pinned_to ref) r = r
    fleet_step-Reach s w (cut state) r = r

    fleet_run-Reach :
        (s : LineageState) (w : Fleet) (es : List FleetEvent)
        → Reach p cfg.max_skew s w.consumer.state
        → Reach p cfg.max_skew s (fleet_run p cfg w es).consumer.state
    unfolding fleet_run
    fleet_run-Reach s w [] r = r
    fleet_run-Reach s w (e ∷ es) r =
        fleet_run-Reach s (fleet_step p cfg w e) es (fleet_step-Reach s w e r)

    fleet_run-IsGone :
        (epoch : OptionalText) (w : Fleet) (es : List FleetEvent)
        → IsGone p cfg.max_skew epoch w.consumer.state
        → IsGone p cfg.max_skew epoch (fleet_run p cfg w es).consumer.state
    fleet_run-IsGone epoch w es g =
        Reach-IsGone p cfg.max_skew epoch (fleet_run-Reach w.consumer.state w es here) g

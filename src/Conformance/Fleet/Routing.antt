-- ===== src/Conformance/Fleet/Routing.antt =====
-- The order in which a gateway that is not pinned asks its replicas.
use mathlib.Core.List.{append-nil, append_assoc}
use mcp_heartbeat.Prelude.{
  Bool, List, Option, String, [], ap, arith, false, get_elem?, if◌then◌else◌, length, none, refl,
  some, suc, sym, zero, ℕ, ◌%◌, ◌++◌, ◌+◌, ◌∙◌, ◌∷◌, ◌≡◌, ◌≢◌,
}
use mcp_heartbeat.Platform.{Platform}
use mcp_heartbeat.Current.Convergence.{failed}
use mcp_heartbeat.Conformance.Fleet.{
  Gateway, Replica, answer_from, gateway_fetch, route_replica, routed, turn,
}
use mcp_heartbeat.Current.Convergence.{Fetch}

-- the epoch that a replica serves, if there is one
abbrev pub epoch_served : Option Replica → List String
epoch_served none = []
epoch_served (some r) = r.epoch_id ∷ []

-- the epochs of the replicas in turn: of the positions start, start + 1, … round the list
abbrev pub epochs_in_turn : List Replica → List ℕ → ℕ → ℕ → List String
epochs_in_turn pool refs start zero = []
epochs_in_turn pool refs start (suc k) =
    epoch_served (routed pool (get_elem? refs (start % length refs)))
    ++ epochs_in_turn pool refs (start + 1) k

module _ (p : Platform) (pool : List Replica) where
  -- the gateway after a number of fetches
  abbrev pub fetch_times : ℕ → Gateway → Gateway
  fetch_times zero g = g
  fetch_times (suc k) g = fetch_times k (gateway_fetch p pool g).1

  answer_from-served :
      (o : Option Replica) (g : Gateway)
      → (answer_from p o g).1 ≡ record g { served = g.served ++ epoch_served o }
  answer_from-served none g =
      ap (λ (s : List String). record g { served = s }) (sym (append-nil g.served))
  answer_from-served (some r) g = refl

  route_replica-turn :
      (g : Gateway) → g.pinned ≡ none → length g.replicas ≢ 0 → route_replica g ≡ turn g
  unfolding route_replica
  route_replica-turn g q n = ground (arith, q, n)

  reachable : (b : Bool) (x y : Fetch × Gateway) → b ≡ false → (if b then x else y) ≡ y
  reachable b x y e = rw e refl

  gateway_fetch-turn :
      (g : Gateway)
      → g.unreachable ≡ false
      → g.pinned ≡ none
      → length g.replicas ≢ 0
      → (gateway_fetch p pool g).1 ≡ record g {
        cursor = g.cursor + 1;
        served =
            g.served
            ++ epoch_served (routed pool (get_elem? g.replicas (g.cursor % length g.replicas)));
      }
  unfolding gateway_fetch
  gateway_fetch-turn g u q n =
      ap (λ (x : Fetch × Gateway). x.1)
        (reachable g.unreachable (failed "ConnectionError", g)
          (answer_from p (routed pool (route_replica g).0) (route_replica g).1) u)
      ∙ ap (λ (x : Option ℕ × Gateway). (answer_from p (routed pool x.0) x.1).1)
          (route_replica-turn g q n)
      ∙ answer_from-served (routed pool (turn g).0) (turn g).1

  fetch_times-rotates :
      (k : ℕ) (g : Gateway)
      → g.unreachable ≡ false
      → g.pinned ≡ none
      → length g.replicas ≢ 0
      → fetch_times k g ≡ record g {
        cursor = g.cursor + k;
        served = g.served ++ epochs_in_turn pool g.replicas g.cursor k;
      }
  fetch_times-rotates zero g u q n = ground (arith, append-nil g.served)
  fetch_times-rotates (suc k) g u q n =
      let one = epoch_served (routed pool (get_elem? g.replicas (g.cursor % length g.replicas))) in
      let g' : Gateway = record g { cursor = g.cursor + 1; served = g.served ++ one } in
      ap (fetch_times k) (gateway_fetch-turn g u q n)
      ∙ fetch_times-rotates k g' u q n
      ∙ ground (arith, append_assoc g.served one (epochs_in_turn pool g.replicas (g.cursor + 1) k))

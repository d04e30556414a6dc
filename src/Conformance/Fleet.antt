-- ===== src/Conformance/Fleet.antt =====
-- runtime.py: replicas under one name behind a gateway, and the consumer that reads through it.
-- A replica is shared by reference: the references are positions in the pool.
pub mod Routing
pub mod Replicas
pub mod Lineage
use mcp_heartbeat.Prelude.{
  Bool, List, Option, Result, String, [], false, get_elem?, if◌then◌else◌, length, nat_eq, none, ok,
  raise, set, some, ℕ, ◌%◌, ◌++◌, ◌+◌, ◌>>=◌, ◌∷◌,
}
use mcp_heartbeat.Json.{Json, end, obj}
use mcp_heartbeat.Platform.{Platform}
use mcp_heartbeat.Core.Errors.{Raises}
use mcp_heartbeat.Core.Model.{Heartbeat, to_dict}
use mcp_heartbeat.Core.Ports.{ChangeHint}
use mcp_heartbeat.Core.Producer.{FakeClock, Issuer, advance, issue, new_issuer}
use mcp_heartbeat.Current.Convergence.{
  Consumer, Fetch, Settings, Verdict, failed, fetched, new_consumer, on_hint, refetch,
}
use mcp_heartbeat.Prelude.Int.{ℤ}

abbrev pub fleet_participant : String
fleet_participant = "svc/api-7"

pub record Replica : Type 0 where
  pub epoch_id : String
  pub issuer : Issuer
  pub current : Heartbeat

abbrev pub issued_replica : String → Heartbeat × Issuer → Replica
issued_replica epoch (h, after) = record { epoch_id = epoch; issuer = after; current = h }

-- `Replica(epoch_id, clock, lease_seconds)`; `minted` is the epoch drawn in place of an empty one
unfoldable pub new_replica : String → String → ℤ → FakeClock → Raises Replica
unfolding issue new_issuer
new_replica epoch minted lease clock =
    issue (new_issuer fleet_participant (some epoch) minted lease end) clock.wall >>= λ r.
    ok (issued_replica epoch r)

-- `beat`, less the document that it returns
unfoldable pub beat_replica : Replica → FakeClock → Raises Replica
unfolding issue
beat_replica r clock = issue r.issuer clock.wall >>= λ s. ok (issued_replica r.epoch_id s)

abbrev pub replica_document : Platform → Replica → Json
replica_document p r = obj (to_dict p r.current)

pub record Gateway : Type 0 where
  pub replicas : List ℕ
  pub cursor : ℕ
  pub unreachable : Bool
  pub pinned : Option ℕ
  pub served : List String

abbrev pub new_gateway : List ℕ → Gateway
new_gateway refs = record {
  replicas = refs;
  cursor = 0;
  unreachable = false;
  pinned = none;
  served = [];
}

abbrev pub turn : Gateway → Option ℕ × Gateway
turn g = (get_elem? g.replicas (g.cursor % length g.replicas), record g { cursor = g.cursor + 1 })

-- `Gateway.route`; `none` is the ZeroDivisionError of a gateway with no replica
unfoldable pub route_replica : Gateway → Option ℕ × Gateway
route_replica g = elim g.pinned [
  | some ref ↦ (some ref, g)
  | none ↦ if nat_eq (length g.replicas) 0 then (none, g) else turn g
]

abbrev pub answer_from : Platform → Option Replica → Gateway → Fetch × Gateway
answer_from p none g = (failed "ZeroDivisionError", g)
answer_from p (some r) g =
    (fetched (replica_document p r) none, record g { served = g.served ++ r.epoch_id ∷ [] })

-- the replica that was routed to
abbrev pub routed : List Replica → Option ℕ → Option Replica
routed pool none = none
routed pool (some ref) = get_elem? pool ref

-- `Gateway.fetch`
unfoldable pub gateway_fetch : Platform → List Replica → Gateway → Fetch × Gateway
unfolding route_replica
gateway_fetch p pool g =
    if g.unreachable
    then (failed "ConnectionError", g)
    else let (ref, g') = route_replica g in answer_from p (routed pool ref) g'

pub record Fleet : Type 0 where
  pub clock : FakeClock
  pub pool : List Replica
  pub gateway : Gateway
  pub consumer : Consumer

-- `_consumer(gateway, clock)` with a gateway that has these replicas
unfoldable pub new_fleet : FakeClock → List Replica → List ℕ → Fleet
unfolding new_consumer
new_fleet clock pool refs = record {
  clock = clock;
  pool = pool;
  gateway = new_gateway refs;
  consumer = new_consumer fleet_participant;
}

-- What the cases of the matrix do, in any order.
pub data FleetEvent : Type 0 where
  time_passes : ℤ → FleetEvent
  starts : String → String → ℤ → FleetEvent
  beats : ℕ → FleetEvent
  repointed : List ℕ → FleetEvent
  pinned_to : Option ℕ → FleetEvent
  cut : Bool → FleetEvent
  hint_arrives : Option ChangeHint → FleetEvent
  refetched : FleetEvent

-- an exception leaves what it would have assigned
abbrev pub or_keep {ℓ} : {A B : Type ℓ} → Result B A → A → A
or_keep (ok a) old = a
or_keep (raise e) old = old

abbrev pub started : List Replica → Raises Replica → List Replica
started pool (ok r) = pool ++ r ∷ []
started pool (raise e) = pool

abbrev pub beaten : FakeClock → List Replica → ℕ → Option Replica → List Replica
beaten clock pool ref none = pool
beaten clock pool ref (some r) = set pool ref (or_keep (beat_replica r clock) r)

module _ (p : Platform) (cfg : Settings) where
  -- `consumer.refetch()`, whose source is the gateway
  unfoldable pub fleet_refetch : Fleet → Raises Verdict × Fleet
  unfolding gateway_fetch refetch
  fleet_refetch w =
      let (answer, g) = gateway_fetch p w.pool w.gateway in
      let (v, c) = refetch p cfg w.consumer w.clock.wall answer in
      (v, record w { gateway = g; consumer = c })

  unfoldable pub fleet_step : Fleet → FleetEvent → Fleet
  unfolding fleet_refetch advance on_hint new_replica beat_replica
  fleet_step w (time_passes d) = record w { clock = or_keep (advance w.clock d) w.clock }
  fleet_step w (starts epoch minted lease) = record w {
    pool = started w.pool (new_replica epoch minted lease w.clock);
  }
  fleet_step w (beats ref) = record w { pool = beaten w.clock w.pool ref (get_elem? w.pool ref) }
  fleet_step w (repointed refs) = record w { gateway = record w.gateway { replicas = refs } }
  fleet_step w (pinned_to ref) = record w { gateway = record w.gateway { pinned = ref } }
  fleet_step w (cut state) = record w { gateway = record w.gateway { unreachable = state } }
  fleet_step w (hint_arrives hint) = record w { consumer = (on_hint p w.consumer hint).0 }
  fleet_step w refetched = (fleet_refetch w).1

  unfoldable pub fleet_run : Fleet → List FleetEvent → Fleet
  unfolding fleet_step
  fleet_run w [] = w
  fleet_run w (e ∷ es) = fleet_run (fleet_step w e) es

-- ===== src/Core/Producer.antt =====
-- The producer: src/mcp_heartbeat/issuer.py over the `FakeClock` of src/mcp_heartbeat/clock.py.
-- Durations are in microseconds.
pub mod Roundtrip
pub mod Stream
use mcp_heartbeat.Prelude.{
  Option, String, if◌then◌else◌, ltb, none, ok, raise, some, suc, ℕ, ◌+◌, ◌-◌, ◌==◌, ◌>>=◌,
}
use mcp_heartbeat.Json.{Fields}
use mcp_heartbeat.Platform.{Instant, max_instant}
use mcp_heartbeat.Core.Errors.{Raises, overflow_error, value_error}
use mcp_heartbeat.Core.Model.{Heartbeat, extension_version}
use mcp_heartbeat.Prelude.Int.{negsuc, pos, ℤ}

-- `DEFAULT_LEASE_SECONDS`
abbrev pub default_lease : ℤ
default_lease = pos 30000000

-- `moment + timedelta(…)`, which raises outside of `datetime.min` and `datetime.max`
unfoldable pub add_delta : Instant → ℤ → Raises Instant
add_delta t (pos d) = if ltb max_instant (t + d) then raise overflow_error else ok (t + d)
add_delta t (negsuc d) = if ltb t (suc d) then raise overflow_error else ok (t - suc d)

pub record FakeClock : Type 0 where
  pub wall : Instant
  pub monotonic : ℕ

-- `advance`, with its guard against going back
unfoldable pub advance : FakeClock → ℤ → Raises FakeClock
unfolding add_delta
advance c (negsuc d) = raise value_error
advance c (pos d) = do
  wall ← add_delta c.wall (pos d)
  ok (record { wall = wall; monotonic = c.monotonic + d })

unfoldable pub skew_wall : FakeClock → ℤ → Raises FakeClock
unfolding add_delta
skew_wall c d = do wall ← add_delta c.wall d; ok (record c { wall = wall })

-- `HeartbeatIssuer`: what it was constructed with, and its counter
pub record Issuer : Type 0 where
  pub participant_id : String
  pub epoch_id : String
  pub lease : ℤ
  pub extensions : Fields
  pub next_sequence : ℕ

-- `HeartbeatIssuer(…)`; `minted` is the epoch that `mint_epoch_id` would draw, and a missing or
-- empty `epoch_id` is replaced by it
unfoldable pub new_issuer : String → Option String → String → ℤ → Fields → Issuer
new_issuer participant epoch minted lease extensions = record {
  participant_id = participant;
  epoch_id = elim epoch [ none ↦ minted | some e ↦ if e == "" then minted else e ];
  lease = lease;
  extensions = extensions;
  next_sequence = 0;
}

-- `issue` at the wall-clock instant `now`
unfoldable pub issue : Issuer → Instant → Raises (Heartbeat × Issuer)
unfolding add_delta
issue i now = do
  expires ← add_delta now i.lease
  let h : Heartbeat = record {
    node_id = some i.participant_id;
    boot_id = some i.epoch_id;
    sequence = some (pos i.next_sequence);
    issued_at = now;
    expires_at = expires;
    version = extension_version;
    extensions = i.extensions;
  }
  ok (h, record i { next_sequence = i.next_sequence + 1 })

-- ===== src/Current/Convergence/Deadline.antt =====
-- When a refetch of a `HeartbeatConsumer` falls due.
use Prim.Native.Nat.{min, max}
use mcp_heartbeat.Prelude.{arith, ok, some, true, ℕ, ◌+◌, ◌-◌, ◌≡◌, ◌≤◌}
use mcp_heartbeat.Platform.{Instant, Platform, max_instant}
use mcp_heartbeat.Core.Model.{Heartbeat}
use mcp_heartbeat.Core.Producer.{add_delta}
use mcp_heartbeat.Current.Convergence.{Consumer, Settings, due, refetch_deadline}

module _ (p : Platform) (cfg : Settings) where
  deadline_returns :
      (c : Consumer) (h : Heartbeat) (last : Instant)
      → c.state.held ≡ some h
      → c.last_fetch_at ≡ some last
      → last ≤ max_instant
      → h.expires_at ≤ max_instant
      → ((w : ℕ) → cfg.scale w ≤ w)
      → (t : Instant) × (refetch_deadline p cfg c ≡ ok (some t))
        × (last ≤ t)
        × (t ≤ max last h.expires_at)
        × (t ≤ last + cfg.max_interval)
  unfolding refetch_deadline add_delta
  deadline_returns c h last eh el bl be short =
      let t = last + min (cfg.scale (h.expires_at - last)) cfg.max_interval in
      (
        t,
        rw (eh, el) (ground (arith, short (h.expires_at - last))),
        omega arith,
        omega (arith, short (h.expires_at - last)),
        omega arith,
      )

  due_at_expiry :
      (c : Consumer) (h : Heartbeat) (last now : Instant)
      → c.state.held ≡ some h
      → c.last_fetch_at ≡ some last
      → h.expires_at ≤ max_instant
      → now ≤ max_instant
      → ((w : ℕ) → cfg.scale w ≤ w)
      → last ≤ now
      → h.expires_at ≤ now
      → due p cfg c now ≡ ok true
  unfolding due
  due_at_expiry c h last now eh el be bn short after expired =
      let (t, q, lo, hi, top) = deadline_returns c h last eh el (omega arith) be short in
      ground (arith, q, hi)

-- ===== src/Core/Ports/Announcing.antt =====
-- The hint that announces a heartbeat, `ChangeHint` of src/mcp_heartbeat/ports.py.
use mcp_heartbeat.Prelude.{String, eq_refl, ok, refl, true, ◌≡◌}
use mcp_heartbeat.Json.{str}
use mcp_heartbeat.Platform.{Platform}
use mcp_heartbeat.Text.{digest_re}
use mcp_heartbeat.Core.Model.{Heartbeat, digest, is_digest, revision}
use mcp_heartbeat.Core.Ports.{
  ChangeHint, for_heartbeat, hint_from_dict, hint_to_dict, matches, missing_hint_fields,
}

module _ (p : Platform) where
  -- When a heartbeat has a digest of the form of one, it is announced by a hint which, written
  -- and read back, is the same hint and matches the heartbeat.
  hint_from_dict-hint_to_dict :
      (h : Heartbeat) (address d : String)
      → digest p h ≡ ok d
      → digest_re d ≡ true
      → (hint : ChangeHint) × (for_heartbeat p h address ≡ ok hint)
        × (hint_from_dict (hint_to_dict hint) ≡ ok hint)
        × (matches p hint h ≡ ok true)
  unfolding hint_from_dict hint_to_dict for_heartbeat missing_hint_fields is_digest matches
  hint_from_dict-hint_to_dict h address d q e = (
    record { address = str address; revision = str (revision p h); digest = str d },
    rw q refl,
    rw e refl,
    simp (eq_refl, q),
  )

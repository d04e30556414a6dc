-- ===== src/Core/Time.antt =====
-- Timestamps: `parse_rfc3339` and `format_rfc3339` of src/mcp_heartbeat/model.py.
use Prim.Native.String.{◌++◌ as append}
use mcp_heartbeat.Prelude.{String, if◌then◌else◌, none, or_raise, raise, some, ◌==◌, ◌>>=◌}
use mcp_heartbeat.Json.{Json, str}
use mcp_heartbeat.Platform.{Instant, Moment, Platform}
use mcp_heartbeat.Text.{drop_last, ends_with_z}
use mcp_heartbeat.Core.Errors.{Raises, overflow_error, value_error}

module _ (p : Platform) where
  -- `parsed.tzinfo is None`, then `parsed.astimezone(timezone.utc)`
  abbrev to_utc : Moment → Raises Instant
  to_utc m = elim m.offset [
    | none ↦ raise value_error
    | some o ↦ or_raise (p.astimezone m) overflow_error
  ]

  -- The text is not empty.
  abbrev parse_text : String → Raises Instant
  parse_text text = do
    let candidate = if ends_with_z text then append (drop_last text) "+00:00" else text
    parsed ← or_raise (p.fromisoformat candidate) value_error
    to_utc parsed

  unfoldable pub parse_rfc3339 : Json → Raises Instant
  parse_rfc3339 (str text) = if text == "" then raise value_error else parse_text text
  parse_rfc3339 _ = raise value_error

  -- `…[:-3] + "Z"`: instants inside the program are aware and in UTC already.
  unfoldable pub format_rfc3339 : Instant → String
  format_rfc3339 moment = append (drop_last (drop_last (drop_last (p.strftime moment)))) "Z"

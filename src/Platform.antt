-- ===== src/Platform.antt =====
-- What the program takes from Python's standard library: parameters of the model.
-- An instant is an aware UTC `datetime`, in microseconds since 0001-01-01T00:00:00Z.
use mcp_heartbeat.Prelude.{Bool, Option, String, ℕ}
use mcp_heartbeat.Json.{Fields, Items, Json, str}
use mcp_heartbeat.Prelude.Int.{ℤ}

abbrev pub Instant : Type 0
Instant = ℕ

-- `datetime.max`
abbrev pub max_instant : Instant
max_instant = 315537897599999999

-- A `datetime` that was parsed: its clock face, and its UTC offset if it is aware.
pub record Moment : Type 0 where
  pub local : ℕ
  pub offset : Option ℤ

pub record Platform : Type 0 where
  -- `datetime.fromisoformat`; `none` is ValueError
  pub fromisoformat : String → Option Moment
  -- `.astimezone(timezone.utc)`; `none` is OverflowError
  pub astimezone : Moment → Option Instant
  -- `.strftime("%Y-%m-%dT%H:%M:%S.%f")`
  pub strftime : Instant → String
  -- `json.dumps(payload, sort_keys=True, separators=(",", ":"), ensure_ascii=False)`
  pub dumps : Json → String
  -- `json.dumps(value, separators=(",", ":"), sort_keys=True)`, in ASCII
  pub dumps_ascii : Json → String
  -- whether `text.encode("utf-8")` returns: on a lone surrogate it raises UnicodeEncodeError
  pub encodes : String → Bool
  -- `hashlib.sha256(text.encode("utf-8")).hexdigest()`, of a text that can be encoded
  pub sha256 : String → String
  -- `repr` of a JSON value
  pub repr : Json → String
  -- `str` of an integer
  pub str_int : ℤ → String
  -- `str.lower` and `str.upper`
  pub lower : String → String
  pub upper : String → String
  -- `urllib.parse.quote(text, safe="")` and `unquote`
  pub quote : String → String
  pub unquote : String → String
  -- `template.format(participant_id=text)`; `none` is an exception
  pub format_participant : String → String → Option String
  -- `float` of a JSON value, as its `repr`; `none` is an exception
  pub to_float : Json → Option String
  -- `dict` of a list; `none` is an exception
  pub dict_of : Items → Option Fields

-- `str` of a JSON value
abbrev pub show : Platform → Json → String
show p (str s) = s
show p v = p.repr v

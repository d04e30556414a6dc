-- ===== src/Current/Identity/Compact.antt =====
-- identity.py: `Principal.from_compact`, which reads what `compact` wrote.
use mcp_heartbeat.Prelude.{Option, OptionalText, String, ap, none, some, ◌≡◌}
use mcp_heartbeat.Json.{Items, Json, arr, cons, nil, obj, optional_text, str}
use mcp_heartbeat.Platform.{Platform}
use mcp_heartbeat.Current.Identity.{Principal, compact}
use mcp_heartbeat.Current.Subscriptions.{characters, key_items}

-- client_id, issuer and subject, of any JSON: the source does not look at what they are
abbrev pub Parts : Type 0
Parts = Json × Json × Json

-- unpacking into three names; another number of items is ValueError
abbrev pub three_of : Items → Option Parts
three_of (cons a (cons b (cons c nil))) = some (a, b, c)
three_of _ = none

-- A text is unpacked into its characters and an object into its keys; the rest is TypeError.
abbrev pub unpacked : Option Json → Option Parts
unpacked (some (arr xs)) = three_of xs
unpacked (some (str s)) = three_of (characters s)
unpacked (some (obj fs)) = three_of (key_items fs)
unpacked _ = none

-- `json.loads`; `none` is ValueError
module _ (loads : String → Option Json) where
  abbrev pub from_compact : OptionalText → Option Parts
  from_compact none = none
  from_compact (some raw) = unpacked (loads raw)

  -- On a platform whose `loads` reads back what `dumps` writes, the compact form of a principal is
  -- read as its three parts.
  from_compact-compact :
      (p : Platform)
      → ((v : Json) → loads (p.dumps_ascii v) ≡ some v)
      → (q : Principal)
      → from_compact (some (compact p q))
        ≡ some (optional_text q.client_id, optional_text q.issuer, optional_text q.subject)
  unfolding compact
  from_compact-compact p reads q = ap unpacked (
      reads (
        arr (
          cons (optional_text q.client_id)
            (cons (optional_text q.issuer) (cons (optional_text q.subject) nil)))))

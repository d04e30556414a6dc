-- ===== src/Current/Lint/Literals.antt =====
-- The literals that the scan looks for.
use mathlib.Core.List.{Memᴰ}
use mathlib.Core.List.Memᴰ
use mcp_heartbeat.Prelude.{String, ap, ◌≡◌}
use mcp_heartbeat.Current.Lint.{forbidden_literals}

-- The literals that would put a primitive of the other era on the wire, in lower case, and the
-- primitives that they belong to.
pub data Forbids (fragment primitive : String) : Type 0 where
  of_initialize : fragment ≡ "initialize" → primitive ≡ "initialize" → Forbids fragment primitive
  of_initialized :
      fragment ≡ "notifications/initialized"
      → primitive ≡ "notifications/initialized"
      → Forbids fragment primitive
  of_session_id :
      fragment ≡ "mcp-session-id" → primitive ≡ "Mcp-Session-Id" → Forbids fragment primitive
  of_last_event_id :
      fragment ≡ "last-event-id" → primitive ≡ "Last-Event-ID" → Forbids fragment primitive
  of_subscribe :
      fragment ≡ "resources/subscribe"
      → primitive ≡ "resources/subscribe"
      → Forbids fragment primitive
  of_event_stream :
      fragment ≡ "text/event-stream"
      → primitive ≡ "GET <mcp endpoint> -> text/event-stream"
      → Forbids fragment primitive
  of_presence_lease :
      fragment ≡ "experimental.presencelease"
      → primitive ≡ "experimental.presenceLease"
      → Forbids fragment primitive

abbrev first : String × String → String
first l = l.0

abbrev second : String × String → String
second l = l.1

literal_pair :
    (fragment primitive f q : String)
    → fragment ≡ f
    → primitive ≡ q
    → ◌≡◌ {A = String × String} (fragment, primitive) (f, q)
literal_pair fragment primitive f q d e = λ i. (d i, e i)

pub Memᴰ-of_Forbids :
    (fragment primitive : String)
    → Forbids fragment primitive
    → Memᴰ (fragment, primitive) forbidden_literals
Memᴰ-of_Forbids x y (of_initialize d e) = Memᴰ.head (literal_pair x y _ _ d e)
Memᴰ-of_Forbids x y (of_initialized d e) = Memᴰ.tail (Memᴰ.head (literal_pair x y _ _ d e))
Memᴰ-of_Forbids x y (of_session_id d e) =
    Memᴰ.tail (Memᴰ.tail (Memᴰ.head (literal_pair x y _ _ d e)))
Memᴰ-of_Forbids x y (of_last_event_id d e) =
    Memᴰ.tail (Memᴰ.tail (Memᴰ.tail (Memᴰ.head (literal_pair x y _ _ d e))))
Memᴰ-of_Forbids x y (of_subscribe d e) =
    Memᴰ.tail (Memᴰ.tail (Memᴰ.tail (Memᴰ.tail (Memᴰ.head (literal_pair x y _ _ d e)))))
Memᴰ-of_Forbids x y (of_event_stream d e) =
    Memᴰ.tail (Memᴰ.tail (Memᴰ.tail (Memᴰ.tail (Memᴰ.tail (Memᴰ.head (literal_pair x y _ _ d e))))))
Memᴰ-of_Forbids x y (of_presence_lease d e) = Memᴰ.tail (
    Memᴰ.tail
      (Memᴰ.tail (Memᴰ.tail (Memᴰ.tail (Memᴰ.tail (Memᴰ.head (literal_pair x y _ _ d e)))))))

pub Forbids-of_Memᴰ : (l : String × String) → Memᴰ l forbidden_literals → Forbids l.0 l.1
Forbids-of_Memᴰ l (Memᴰ.head e) = of_initialize (ap first e) (ap second e)
Forbids-of_Memᴰ l (Memᴰ.tail (Memᴰ.head e)) = of_initialized (ap first e) (ap second e)
Forbids-of_Memᴰ l (Memᴰ.tail (Memᴰ.tail (Memᴰ.head e))) = of_session_id (ap first e) (ap second e)
Forbids-of_Memᴰ l (Memᴰ.tail (Memᴰ.tail (Memᴰ.tail (Memᴰ.head e)))) =
    of_last_event_id (ap first e) (ap second e)
Forbids-of_Memᴰ l (Memᴰ.tail (Memᴰ.tail (Memᴰ.tail (Memᴰ.tail (Memᴰ.head e))))) =
    of_subscribe (ap first e) (ap second e)
Forbids-of_Memᴰ l (Memᴰ.tail (Memᴰ.tail (Memᴰ.tail (Memᴰ.tail (Memᴰ.tail (Memᴰ.head e)))))) =
    of_event_stream (ap first e) (ap second e)
Forbids-of_Memᴰ l (Memᴰ.tail (Memᴰ.tail (Memᴰ.tail (Memᴰ.tail (Memᴰ.tail (Memᴰ.tail m)))))) =
    let e = Memᴰ.eq_of_singleton m in of_presence_lease (ap first e) (ap second e)

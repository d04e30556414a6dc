-- ===== src/Tests/Adapters.antt =====
-- The consumer of the current adapter and the sessions of the legacy one, at concrete inputs.
use mcp_heartbeat.Prelude.{
  List, Option, String, [], false, none, ok, refl, some, ℕ, ◌+◌, ◌/◌, ◌∷◌, ◌≡◌,
}
use mcp_heartbeat.Json.{Fields, end, field, null, obj, str}
use mcp_heartbeat.Core.Lineage.{default_max_skew}
use mcp_heartbeat.Current.Convergence.{Consumer, Settings, bind_response, fetched, refetch}
use mcp_heartbeat.Current.Identity.{
  Binder, Principal, ResponseBinding, compact, evaluate, is_empty, judged, static_permits,
}
use mcp_heartbeat.Legacy.Capabilities.{lease_capability}
use mcp_heartbeat.Legacy.Negotiation.{assert_legacy_era}
use mcp_heartbeat.Legacy.Session.{Handler, Server, created, new_server, server_info}
use mcp_heartbeat.Tests.Toy.{document_of, empty_state, first_lease, first_state, new_year, toy}
use mcp_heartbeat.Current.Convergence.Authority.{refetch_not_bound}
use mcp_heartbeat.Current.Convergence.Hints.{as_count, hear, hear_coalesces}
use mcp_heartbeat.Legacy.Session.Lifecycle.{LedgerIsSound, serve, serve_new-LedgerIsSound}

abbrev client_a : Principal
client_a = record { client_id = some "client"; issuer = none; subject = none }

abbrev table : List (String × List String)
table = ("client", "node/a" ∷ []) ∷ []

abbrev table_binder : Option Principal → Binder
table_binder principal = record { policy = static_permits toy table; principal = principal }

abbrev no_binder : Option Principal → Binder
no_binder principal = record { policy = λ q participant. some false; principal = principal }

-- `refetch_fraction` of one half
abbrev half_of : ℕ → ℕ
half_of w = w / 2

abbrev settings : Settings
settings = record {
  binder_factory = some table_binder;
  max_skew = default_max_skew;
  scale = half_of;
  max_interval = 60000000;
}

abbrev closed_settings : Settings
closed_settings = record settings { binder_factory = some no_binder }

abbrev fresh_consumer : Consumer
fresh_consumer = record {
  participant_id = "node/a";
  state = empty_state;
  last_binding = none;
  refetch_pending = false;
  last_fetch_at = none;
  hints_seen = 0;
  hints_coalesced = 0;
  fetches = 0;
}

abbrev leased_consumer : Consumer
leased_consumer = record fresh_consumer { state = first_state; last_fetch_at = some new_year }

denied : ResponseBinding
denied = judged "node/a" "client" (some false)

refetch_not_bound_example :
    let (v, d) =
      refetch toy closed_settings fresh_consumer new_year
        (fetched (document_of first_lease) (some client_a)) in
    (d.state ≡ empty_state) × (d.last_binding ≡ some denied) × (d.refetch_pending ≡ false)
unfolding bind_response evaluate is_empty compact denied
refetch_not_bound_example =
    refetch_not_bound toy closed_settings fresh_consumer new_year (document_of first_lease)
      (some client_a) denied refl refl

hear_coalesces_example :
    let (d, n) = hear toy leased_consumer (none ∷ none ∷ []) in
    (as_count toy leased_consumer.refetch_pending + n ≡ as_count toy d.refetch_pending)
    × (d.hints_seen ≡ leased_consumer.hints_seen + 2)
hear_coalesces_example = hear_coalesces toy leased_consumer (none ∷ none ∷ [])

abbrev answer_read : Handler
answer_read params = ok null

abbrev registry : List (String × Handler)
registry = ("resources/read", answer_read) ∷ []

abbrev new_session : Server
new_session = record {
  server_name = "server";
  methods = registry;
  implemented = "resources/read" ∷ [];
  state = created;
  disagreements = [];
  protocol = none;
  heartbeat = none;
}

abbrev offer : Fields
offer = field "protocolVersion" (str "2025-06-18") (
    field "capabilities" (obj (field "experimental" lease_capability end))
      (field "clientInfo" (server_info "client") end))

serve_new-LedgerIsSound_example :
    LedgerIsSound (serve toy new_session (("initialize", offer) ∷ ("initialize", offer) ∷ []))
unfolding new_server assert_legacy_era
serve_new-LedgerIsSound_example =
    serve_new-LedgerIsSound toy "server" "2025-06-18" registry [] new_session
      (("initialize", offer) ∷ ("initialize", offer) ∷ []) refl

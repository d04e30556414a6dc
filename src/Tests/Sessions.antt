-- ===== src/Tests/Sessions.antt =====
-- The consumer and the binder of the legacy adapter, at concrete inputs.
use mcp_heartbeat.Prelude.{List, String, [], false, none, ok, some, true, ◌∷◌, ◌≡◌, ◌⊎◌}
use mcp_heartbeat.Json.{Json}
use mcp_heartbeat.Core.Errors.{Raises}
use mcp_heartbeat.Core.Lineage.{admit, admitted, default_max_skew, hold}
use mcp_heartbeat.Core.Model.{Heartbeat, unverified}
use mcp_heartbeat.Current.Identity.{Principal, evaluate, static_permits}
use mcp_heartbeat.Legacy.Consumer.{LegacyConsumer, claim_evidence, is_unbound, legacy_refetch}
use mcp_heartbeat.Legacy.Identity.{SessionBinder, evidence, mapping}
use mcp_heartbeat.Legacy.Negotiation.{capability_accepted, outcome_accepted}
use mcp_heartbeat.Legacy.Session.{ready}
use mcp_heartbeat.Tests.Toy.{document_of, empty_state, first_lease, new_year, toy}
use mcp_heartbeat.Legacy.Consumer.Refusals.{legacy_refetch-state}
use mcp_heartbeat.Legacy.Identity.CrossEra.{evidence-evaluate, session_principal_of}
use mcp_heartbeat.Legacy.Session.ClientSide.{Client, client_heartbeat_ready}

abbrev ready_peer : Client
ready_peer = record {
  client_name = "client";
  requested = "2025-06-18";
  request_heartbeat = true;
  state = ready;
  heartbeat = some (record {
    outcome = outcome_accepted;
    code = capability_accepted;
    extension_version = some "0.1";
    detail = "";
  });
  negotiated_era = some "2025-06-18";
}

abbrev table : List (String × List String)
table = ("client", "node/a" ∷ []) ∷ []

abbrev session_binder : SessionBinder
session_binder = record {
  context = record { principal = some "client"; source = "token" };
  permitted = mapping table;
}

abbrev reader : LegacyConsumer
reader = record {
  participant_id = "node/a";
  session = ready_peer;
  binder = some session_binder;
  state = empty_state;
  uncorroborated_hints = 0;
}

legacy_refetch-state_example :
    let (r, d) = legacy_refetch toy reader new_year none (ok (document_of first_lease)) in
    (d.state ≡ reader.state)
    ⊎ ((document : Json) × (h : Heartbeat) × (◌≡◌ {A = Raises Json}
          (ok (document_of first_lease))
          (ok document))
        × (client_heartbeat_ready reader.session ≡ true)
        × (is_unbound toy (claim_evidence toy reader document).binding ≡ false)
        × (admit toy reader.state document new_year default_max_skew
            ≡ ok (admitted (hold reader.state h)))
        × (d.state ≡ hold reader.state h))
legacy_refetch-state_example =
    legacy_refetch-state toy reader new_year none (ok (document_of first_lease))

abbrev caller : Principal
caller = record { client_id = some "client"; issuer = none; subject = none }

evidence-evaluate_example :
    let e =
      evidence toy
        (record {
          context = record { principal = session_principal_of toy (some caller); source = "token" };
          permitted = mapping table;
        })
        (record {
          participant_id = some "node/a";
          epoch_id = some "boot-1";
          binding = unverified;
        }) in
    let r =
      evaluate toy
        (record { policy = static_permits toy table; principal = some caller })
        "node/a" in
    (e.binding ≡ r.binding)
    × (e.reason ≡ r.reason)
    × (e.principal ≡ r.principal_fingerprint)
    × (e.participant_id ≡ some r.participant_id)
evidence-evaluate_example =
    evidence-evaluate toy table (some caller) "token" "node/a" (some "boot-1") unverified

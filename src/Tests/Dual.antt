-- ===== src/Tests/Dual.antt =====
-- The server of both eras and the demonstration, at concrete messages.
use mcp_heartbeat.Prelude.{List, [], false, none, ok, refl, some, true, ℕ, ◌+◌, ◌∷◌, ◌≡◌}
use mcp_heartbeat.Json.{Fields, end, field, obj, str}
use mcp_heartbeat.Conformance.DualEra.{
  DualServer, dual_issuer, legacy_implemented, new_clock, of_handler, serve_dual,
}
use mcp_heartbeat.Core.Lineage.{default_max_skew, redelivery}
use mcp_heartbeat.Core.Model.{Heartbeat, digest, digest_of, to_dict}
use mcp_heartbeat.Core.Producer.{add_delta, issue, new_issuer}
use mcp_heartbeat.Demo.Observer.{new_observer}
use mcp_heartbeat.Demo.Publisher.{
  Participant, new_participant, participant_heartbeat, status_extension,
}
use mcp_heartbeat.Legacy.Capabilities.{lease_capability}
use mcp_heartbeat.Legacy.Negotiation.{assert_legacy_era}
use mcp_heartbeat.Legacy.Session.{created, handle_initialize, server_info}
use mcp_heartbeat.Prelude.Int.{pos}
use mcp_heartbeat.Tests.Toy.{first_admitted, first_lease, first_state, new_year, toy}
use mcp_heartbeat.Tests.Wire.{reading_body, reading_headers}
use mcp_heartbeat.Conformance.DualEra.Exchange.{hello, hello-served}
use mcp_heartbeat.Conformance.DualEra.Isolation.{
  Message, SeparatedBy, label_parts, legacy_parts, serve_all, serve_all_separated,
}
use mcp_heartbeat.Demo.Observer.Polling.{poll_frozen, polled_once}
use mcp_heartbeat.Demo.Publisher.Stream.{
  Answers, after_calls, beating, participant_heartbeat-Answers,
}
use mcp_heartbeat.Legacy.Session.Agreement.{HandshakeAgrees}
use mcp_heartbeat.Legacy.Session.ClientSide.{Client, initialize_request}

abbrev dual : DualServer
dual = record {
  legacy = record {
    server_name = "dual-era-conformance";
    methods = [];
    implemented = legacy_implemented;
    state = created;
    disagreements = [];
    protocol = none;
    heartbeat = none;
  };
  clock = new_clock;
  issuer = dual_issuer;
  current = first_lease;
  mutations = [];
  refusals = [];
}

abbrev legacy_hello : Fields
legacy_hello =
    field "method" (str "initialize")
      (field "params" (obj (field "protocolVersion" (str "2025-06-18") end)) end)

abbrev traffic : List Message
traffic = (legacy_hello, []) ∷ (reading_body, reading_headers) ∷ (end, []) ∷ []

serve_all_separated_example :
    SeparatedBy toy
      (legacy_parts toy traffic)
      (label_parts toy traffic)
      dual
      (serve_all toy dual traffic)
serve_all_separated_example = serve_all_separated toy dual traffic

abbrev peer : Client
peer = record {
  client_name = "client";
  requested = "2025-06-18";
  request_heartbeat = true;
  state = created;
  heartbeat = none;
  negotiated_era = none;
}

abbrev offer : Fields
offer = field "protocolVersion" (str "2025-06-18") (
    field "capabilities" (obj (field "experimental" lease_capability end))
      (field "clientInfo" (server_info "client") end))

hello-served_example :
    let (answer, d') = serve_dual toy dual (hello toy offer) [] in
    ((answer, d'.legacy) ≡ of_handler toy (handle_initialize toy dual.legacy offer))
    × HandshakeAgrees toy dual.legacy peer offer
    × (d'.current ≡ dual.current)
unfolding assert_legacy_era initialize_request
hello-served_example = hello-served toy dual peer "2025-06-18" offer [] refl refl refl

abbrev told_lease : ℕ → Heartbeat
told_lease n = record first_lease {
  boot_id = some "boot-1";
  sequence = some (pos n);
  extensions = field status_extension (obj (field "status" (str "serving") end)) end;
}

abbrev second_told : Heartbeat
second_told = told_lease 1

abbrev started : Participant
started = new_participant "node/a" (pos 30000000) "boot-1"

abbrev told_twice : Participant
told_twice = record {
  participant_id = "node/a";
  lease = pos 30000000;
  status = "serving";
  frozen = false;
  restarts = 0;
  issuer = record {
    participant_id = "node/a";
    epoch_id = "boot-1";
    lease = pos 30000000;
    extensions = second_told.extensions;
    next_sequence = 2;
  };
  last = to_dict toy second_told;
}

participant_heartbeat-Answers_example :
    Answers toy
      (after_calls toy started (beating new_year ∷ []))
      new_year
      (to_dict toy second_told)
      told_twice
unfolding participant_heartbeat new_participant new_issuer issue add_delta to_dict after_calls
participant_heartbeat-Answers_example =
    participant_heartbeat-Answers toy "node/a" (pos 30000000) "boot-1" (beating new_year ∷ [])
      new_year (to_dict toy second_told) told_twice refl

abbrev frozen_participant : Participant
frozen_participant = record {
  participant_id = "node/a";
  lease = pos 30000000;
  status = "serving";
  frozen = true;
  restarts = 0;
  issuer = new_issuer "node/a" (some "boot-1") "boot-1" (pos 30000000) end;
  last = to_dict toy first_lease;
}

poll_frozen_example :
    let o =
      (polled_once toy default_max_skew frozen_participant
        (new_observer "node/a")
        new_year
        "00:00").1 in
    (o.state ≡ first_state)
    × (polled_once toy default_max_skew frozen_participant o (new_year + 5000000) "00:05"
        ≡ (ok (redelivery first_state), o))
unfolding to_dict digest digest_of
poll_frozen_example =
    poll_frozen toy default_max_skew frozen_participant (new_observer "node/a") new_year
      (new_year + 5000000) "00:00" "00:05" first_lease refl refl first_admitted

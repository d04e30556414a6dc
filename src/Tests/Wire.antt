-- ===== src/Tests/Wire.antt =====
-- The wire of the current adapter, at concrete messages.
use mathlib.Core.Path.{subst}
use mcp_heartbeat.Prelude.{List, String, [], ap, false, none, ok, raise, refl, true, ◌==◌, ◌∷◌, ◌≡◌}
use mcp_heartbeat.Json.{Fields, arr, bool, cons, end, field, get, nil, null, obj, str}
use mcp_heartbeat.Text.{digest_re}
use mcp_heartbeat.Core.Errors.{Raises}
use mcp_heartbeat.Core.Model.{Heartbeat, digest, digest_of}
use mcp_heartbeat.Core.Ports.{for_heartbeat}
use mcp_heartbeat.Current.Contract.{
  heartbeat_extension, method_header, modern_versions, name_header, version_header,
}
use mcp_heartbeat.Current.Discovery.{capability_to_dict, default_capability}
use mcp_heartbeat.Current.Era.{current_route, route}
use mcp_heartbeat.Current.Metadata.{
  Headers, RequestEnvelope, body_of, build_request, classify_request, headers_of, meta,
}
use mcp_heartbeat.Current.Subscriptions.{
  SubscriptionFilter, build_acknowledgement, build_resource_updated, hints_in, open_stream,
}
use mcp_heartbeat.Tests.Toy.{first_lease, second_lease, toy}
use mcp_heartbeat.Current.Era.Routing.{IsOfEra, route-build_request, route_sound}
use mcp_heartbeat.Current.Metadata.Ladder.{KeepsHeaders, classify_request-build_request, route_of}
use mcp_heartbeat.Current.Subscriptions.Frames.{
  DigestsAreFormed, hints_of, stream_delivers, updates_of,
}
use mcp_heartbeat.Current.Subscriptions.Ordering.{
  StreamIsSound, accept_all, accept_all_open-StreamIsSound,
}

abbrev pub keeps_headers : KeepsHeaders toy
keeps_headers = record { version_name = refl; method_name = refl; name_name = refl }

abbrev value_of : Raises String → String
value_of (ok s) = s
value_of (raise e) = ""

toy-DigestsAreFormed : DigestsAreFormed toy
unfolding digest_re digest digest_of
toy-DigestsAreFormed h d e = subst (λ (s : String). digest_re s ≡ true) (ap value_of e) refl

abbrev asked : SubscriptionFilter
asked = record {
  tools_list_changed = false;
  prompts_list_changed = false;
  resources_list_changed = false;
  resource_subscriptions = cons (str "heartbeat://participants/node%2Fa") nil;
}

abbrev early : List Fields
early =
    build_resource_updated "heartbeat://participants/node%2Fa" none null
    ∷ build_acknowledgement (str "s1") asked
    ∷ build_resource_updated "heartbeat://participants/node%2Fa" none null
    ∷ []

accept_all_open-StreamIsSound_example : StreamIsSound (accept_all (open_stream asked) early)
accept_all_open-StreamIsSound_example = accept_all_open-StreamIsSound asked early

abbrev updates : List (String × Heartbeat)
updates =
    ("heartbeat://participants/node%2Fa", first_lease)
    ∷ ("heartbeat://participants/node%2Fa", second_lease)
    ∷ []

abbrev frames_in : Raises (List Fields) → List Fields
frames_in (ok frames) = frames
frames_in (raise e) = []

abbrev sent : List Fields
unfolding for_heartbeat digest digest_of
sent = frames_in (updates_of toy (str "s1") updates)

stream_delivers_example :
    hints_of toy updates
    ≡ ok (
        hints_in
          (accept_all (open_stream asked) (build_acknowledgement (str "s1") asked ∷ sent)).received)
unfolding for_heartbeat digest digest_of sent
stream_delivers_example =
    stream_delivers toy asked asked (str "s1") updates sent toy-DigestsAreFormed refl refl refl

abbrev reading : RequestEnvelope
reading = record {
  method = "resources/read";
  params = field "uri" (str "heartbeat://participants/node%2Fa") end;
  protocol_version = "2026-07-28";
  client_info = field "name" (str "client") end;
  client_capabilities = end;
}

abbrev pub reading_body : Fields
reading_body = field "jsonrpc" (str "2.0") (
    field "id" (str "1") (
      field "method" (str "resources/read") (
        field "params"
          (obj (
            field "uri" (str "heartbeat://participants/node%2Fa")
              (field "_meta" (obj (meta reading)) end)))
          end)))

abbrev pub reading_headers : Headers
reading_headers =
    (version_header, "2026-07-28")
    ∷ (method_header, "resources/read")
    ∷ (name_header, "heartbeat://participants/node%2Fa")
    ∷ []

reading_built : build_request toy reading (str "1") ≡ ok (reading_body, reading_headers)
unfolding build_request body_of headers_of meta
reading_built = refl

classify_request-build_request_example :
    classify_request toy reading_body reading_headers modern_versions
    ≡ ok (route_of toy keeps_headers reading)
classify_request-build_request_example =
    classify_request-build_request toy keeps_headers reading (str "1") reading_body reading_headers
      modern_versions reading_built refl refl refl

reading_routed :
    route toy reading_body reading_headers
    ≡ ok (current_route toy "resources/read" (route_of toy keeps_headers reading))
reading_routed =
    route-build_request toy keeps_headers reading (str "1") reading_body reading_headers
      reading_built refl refl refl

route_sound_example :
    (get "method" reading_body ≡ str "resources/read")
    × (("resources/read" == "") ≡ false)
    × IsOfEra toy reading_body reading_headers
        (current_route toy "resources/read" (route_of toy keeps_headers reading))
route_sound_example =
    route_sound toy reading_body reading_headers
      (current_route toy "resources/read" (route_of toy keeps_headers reading)) reading_routed

abbrev offered : Fields
offered = field "supportedVersions" (arr (cons (str "2026-07-28") nil)) (
    field "capabilities"
      (obj (
        field "resources"
          (obj (field "subscribe" (bool true) (field "listChanged" (bool true) end)))
          (field "extensions"
            (obj (field heartbeat_extension (obj (capability_to_dict default_capability)) end))
            end)))
      (field "serverInfo" (obj end)
        (field "instructions" null (field "resultType" (str "complete") end))))

-- ===== src/Tests/Rooms.antt =====
-- The clean-room participant, at concrete inputs.
use mcp_heartbeat.Prelude.{[], arith, none, ok, refl, ◌≡◌}
use mcp_heartbeat.Json.{Fields, obj}
use mcp_heartbeat.Text.{node_id_re}
use mcp_heartbeat.Cleanroom.Interop.{KeepsInstants}
use mcp_heartbeat.Cleanroom.Issuing.{IsInRange, clean_issue-from_dict, next_lease}
use mcp_heartbeat.Cleanroom.Participant.{
  CleanConsumer, CleanIssuer, clean_admit, clean_issue, clean_ok, new_clean_issuer,
}
use mcp_heartbeat.Cleanroom.Simulation.{Corresponds, clean_admit-Corresponds}
use mcp_heartbeat.Core.Lineage.{default_max_skew}
use mcp_heartbeat.Core.Parse.{from_dict}
use mcp_heartbeat.Core.Validation.{document_reason}
use mcp_heartbeat.Prelude.Int.{negsuc, pos, ◌<ℤ◌, ◌≤ℤ◌}
use mcp_heartbeat.Tests.Toy.{
  boot_1, document_of, empty_state, first_admitted, first_lease, first_state, new_year, toy,
  toy-IsFaithful,
}

toy-KeepsInstants : KeepsInstants toy
toy-KeepsInstants m (pos o) t q e = ground (arith, q, e)
toy-KeepsInstants m (negsuc o) t q e = ground (arith, q, e)

abbrev empty_room : CleanConsumer
empty_room = record { node_id = "node/a"; held = none; seen_epochs = [] }

empty_room-Corresponds : Corresponds empty_room empty_state
empty_room-Corresponds = record { participant = refl; epochs = λ x. refl; holds = tt }

clean_admit-Corresponds_example :
    ((clean_admit toy empty_room (document_of first_lease) new_year).0 ≡ ok clean_ok)
    × Corresponds (clean_admit toy empty_room (document_of first_lease) new_year).1 first_state
clean_admit-Corresponds_example =
    clean_admit-Corresponds toy toy-KeepsInstants empty_room empty_state (document_of first_lease)
      new_year default_max_skew first_lease empty_room-Corresponds first_admitted

abbrev room_issuer : CleanIssuer
room_issuer = new_clean_issuer "node/a" "boot-1" (pos 30000000)

room_issuer-IsInRange : IsInRange room_issuer new_year 30000000
unfolding node_id_re
room_issuer-IsInRange = record {
  node = refl;
  boot = boot_1;
  counter = omega arith;
  duration = refl;
  positive = omega arith;
  at_most_an_hour = omega arith;
  issued = record { millis = refl; above = omega arith; below = omega arith };
  expires = record { millis = refl; above = omega arith; below = omega arith };
}

clean_issue-from_dict_example :
    let (document, counted) = clean_issue toy room_issuer new_year in
    (raw : Fields) × (document ≡ ok raw)
    × (document_reason toy (obj raw) ≡ ok none)
    × (from_dict toy (obj raw) ≡ ok (next_lease room_issuer new_year 30000000))
    × (room_issuer.sequence <ℤ counted.sequence)
    × (negsuc 0 ≤ℤ counted.sequence)
clean_issue-from_dict_example =
    clean_issue-from_dict toy toy-IsFaithful room_issuer new_year 30000000 room_issuer-IsInRange

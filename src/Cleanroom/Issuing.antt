-- ===== src/Cleanroom/Issuing.antt =====
-- What the clean-room issuer publishes, read by the core.
use mcp_heartbeat.Prelude.{
  arith, false, ltb, none, ok, refl, some, suc, true, zero, ℕ, ◌+◌, ◌<◌, ◌≡◌, ◌≤◌,
}
use mcp_heartbeat.Json.{Fields, end, obj}
use mcp_heartbeat.Platform.{Instant, Platform, max_instant}
use mcp_heartbeat.Text.{boot_id_re, node_id_re}
use mcp_heartbeat.Cleanroom.Participant.{CleanIssuer, clean_issue, next_of}
use mcp_heartbeat.Core.Model.{Heartbeat, extension_version, to_dict}
use mcp_heartbeat.Core.Parse.{from_dict}
use mcp_heartbeat.Core.Producer.{add_delta}
use mcp_heartbeat.Core.Time.{format_rfc3339}
use mcp_heartbeat.Core.Validation.{document_reason, max_lease}
use mcp_heartbeat.Prelude.Int.{negsuc, pos, ℤ, ◌<ℤ◌, ◌≤ℤ◌}
use mcp_heartbeat.Core.Parse.Agreement.{document_reason_complete, from_dict_complete}
use mcp_heartbeat.Core.Producer.Roundtrip.{IsFaithful, IsPublishable, IsWritable, to_dict-Describes}

-- the heartbeat of the next document
abbrev pub next_lease : CleanIssuer → Instant → ℕ → Heartbeat
next_lease i now lease = record {
  node_id = some i.node_id;
  boot_id = some i.boot_id;
  sequence = some (next_of i.sequence);
  issued_at = now;
  expires_at = now + lease;
  version = extension_version;
  extensions = end;
}

-- The issuer's identifiers satisfy the contract, and its lease and the instants are in range.
pub record IsInRange (i : CleanIssuer) (now : Instant) (lease : ℕ) : Type 0 where
  pub node : node_id_re i.node_id ≡ true
  pub boot : boot_id_re i.boot_id ≡ true
  pub counter : negsuc 0 ≤ℤ i.sequence
  pub duration : i.lease ≡ pos lease
  pub positive : 0 < lease
  pub at_most_an_hour : lease ≤ max_lease
  pub issued : IsWritable now
  pub expires : IsWritable (now + lease)

next_of_lem : (z : ℤ) → negsuc 0 ≤ℤ z → (pos 0 ≤ℤ next_of z) × (z <ℤ next_of z)
next_of_lem (pos n) h = (omega arith, omega arith)
next_of_lem (negsuc zero) h = (omega arith, omega arith)
next_of_lem (negsuc (suc n)) h = absurd (omega (arith, h))

module _ (p : Platform) (f : IsFaithful p) where
  next_lease-IsPublishable :
      (i : CleanIssuer) (now : Instant) (lease : ℕ)
      → IsInRange i now lease
      → IsPublishable p f (next_lease i now lease)
  next_lease-IsPublishable i now lease r = record {
    version = refl;
    node = r.node;
    boot = r.boot;
    sequence = (next_of_lem i.sequence r.counter).0;
    issued = r.issued;
    expires = r.expires;
    opens = omega (arith, r.positive);
    closes = omega (arith, r.at_most_an_hour);
    extension_keys = tt;
  }

  clean_issue_lem :
      (i : CleanIssuer) (now : Instant) (lease : ℕ)
      → IsInRange i now lease
      → clean_issue p i now
        ≡ (ok (to_dict p (next_lease i now lease)), record i { sequence = next_of i.sequence })
  unfolding clean_issue to_dict add_delta format_rfc3339
  clean_issue_lem i now lease r =
      let inside : ltb max_instant (now + lease) ≡ false = ground (arith, r.expires.below) in
      simp (r.duration, inside)

  -- On a platform whose `fromisoformat` and `astimezone` read back the text of an instant in
  -- UTC: when the identifiers of a clean-room issuer satisfy the contract, its counter is -1
  -- or more, its lease is positive and at most an hour, and now and the end of the lease are
  -- writable, `issue` returns a document in which the core finds no reason to refuse it and
  -- which `from_dict` reads as the heartbeat of the next counter, and the counter has grown.
  pub clean_issue-from_dict :
      (i : CleanIssuer) (now : Instant) (lease : ℕ)
      → IsInRange i now lease
      → let (document, counted) = clean_issue p i now in
        (raw : Fields) × (document ≡ ok raw)
        × (document_reason p (obj raw) ≡ ok none)
        × (from_dict p (obj raw) ≡ ok (next_lease i now lease))
        × (i.sequence <ℤ counted.sequence)
        × (negsuc 0 ≤ℤ counted.sequence)
  clean_issue-from_dict i now lease r =
      let d =
        to_dict-Describes p f (next_lease i now lease) (next_lease-IsPublishable i now lease r) in
      let (above, below) = next_of_lem i.sequence r.counter in
      rw (clean_issue_lem i now lease r) (
        to_dict p (next_lease i now lease),
        refl,
        document_reason_complete p (to_dict p (next_lease i now lease)) (next_lease i now lease) d,
        from_dict_complete p (to_dict p (next_lease i now lease)) (next_lease i now lease) d,
        below,
        omega (arith, above),
      )

-- ===== src/Core/Producer/Stream.antt =====
-- One producer and one consumer, instant by instant.
use mcp_heartbeat.Prelude.{
  Option, ap, arith, false, inl, inr, member, none, ok, refl, some, sym, true, ℕ, ◌+◌, ◌<◌, ◌>>=◌,
  ◌≡◌, ◌≢◌, ◌≤◌, ◌⊎◌,
}
use mcp_heartbeat.Json.{obj}
use mcp_heartbeat.Platform.{Instant, Platform, max_instant}
use mcp_heartbeat.Text.{boot_id_re, node_id_re}
use mcp_heartbeat.Core.Errors.{Raises}
use mcp_heartbeat.Core.Lineage.{Admission, LineageState, admit, admitted, hold}
use mcp_heartbeat.Core.Model.{Heartbeat, extension_version, to_dict}
use mcp_heartbeat.Core.Producer.{Issuer, issue}
use mcp_heartbeat.Core.Validation.{max_lease, namespaced}
use mcp_heartbeat.Prelude.Int.{pos}
use mcp_heartbeat.Core.Lineage.Outcomes.{admitted_complete}
use mcp_heartbeat.Core.Lineage.Rules.{Below, Follows, Supersedes}
use mcp_heartbeat.Core.Parse.Agreement.{document_reason_complete}
use mcp_heartbeat.Core.Parse.Contract.{AllKeys}
use mcp_heartbeat.Core.Producer.Roundtrip.{
  IsFaithful, IsPublishable, IsWritable, from_dict-to_dict, to_dict-Describes,
}

-- The consumer is behind the issuer: it has not seen the epoch, or holds an earlier heartbeat of it.
abbrev pub IsBehind : Issuer → LineageState → Option Heartbeat → Type 0
IsBehind i s none = member (some i.epoch_id) s.retired_epochs ≡ false
IsBehind i s (some o) =
    ((o.boot_id ≢ some i.epoch_id) × (member (some i.epoch_id) s.retired_epochs ≡ false))
    ⊎ ((o.boot_id ≡ some i.epoch_id) × Below o.sequence (some (pos i.next_sequence)))

-- What the deployment chooses: identifiers of the right form and a lease of at most an hour.
pub record IsReady (i : Issuer) (s : LineageState) : Type 0 where
  pub participant : i.participant_id ≡ s.participant_id
  pub node : node_id_re i.participant_id ≡ true
  pub boot : boot_id_re i.epoch_id ≡ true
  pub keys : AllKeys namespaced i.extensions
  pub behind : IsBehind i s s.held

-- the heartbeat that `issue` mints
abbrev pub minted : Issuer → Instant → Instant → Heartbeat
minted i now expires = record {
  node_id = some i.participant_id;
  boot_id = some i.epoch_id;
  sequence = some (pos i.next_sequence);
  issued_at = now;
  expires_at = expires;
  version = extension_version;
  extensions = i.extensions;
}

abbrev pub bump : Issuer → Issuer
bump i = record i { next_sequence = i.next_sequence + 1 }

issue-eq :
    (i : Issuer) (now : Instant) (d : ℕ)
    → i.lease ≡ pos d
    → now + d ≤ max_instant
    → issue i now ≡ ok (minted i now (now + d), bump i)
unfolding issue
issue-eq i now d e h = rw e (ground arith)

module _ (p : Platform) (k : ℕ) where
  -- the issuer mints, the document travels, and the consumer admits it at the same instant
  unfoldable pub deliver : Issuer → LineageState → Instant → Raises (Admission × Issuer)
  deliver i s now = do
    issued ← issue i now
    a ← admit p s (obj (to_dict p issued.0)) now k
    ok (a, issued.1)

  module _ (f : IsFaithful p) where
    follows :
        (i : Issuer) (s : LineageState) (held : Option Heartbeat) (now expires : Instant)
        → IsBehind i s held
        → Follows s (minted i now expires) held
    follows i s none now expires b = b
    follows i s (some o) now expires (inl (d, m)) = inl ((λ e. d (sym e)), m)
    follows i s (some o) now expires (inr (d, m)) = inr (sym d, m)

    module _ (i : Issuer) (s : LineageState) (now : Instant) (d : ℕ) (r : IsReady i s) (pd : 0 < d)
        (md : d ≤ max_lease) (w : IsWritable now) (w' : IsWritable (now + d)) where
      minted-IsPublishable : IsPublishable p f (minted i now (now + d))
      minted-IsPublishable = record {
        version = refl;
        node = r.node;
        boot = r.boot;
        sequence = omega arith;
        issued = w;
        expires = w';
        opens = omega arith;
        closes = omega arith;
        extension_keys = r.keys;
      }

      minted-Supersedes : Supersedes s (minted i now (now + d)) now k
      minted-Supersedes = record {
        participant = ap some r.participant;
        lineage = follows i s s.held now (now + d) r.behind;
        not_ahead = omega arith;
        not_behind = omega arith;
        fresh = omega arith;
      }

      minted-admitted :
          admit p s (obj (to_dict p (minted i now (now + d)))) now k
          ≡ ok (admitted (hold s (minted i now (now + d))))
      minted-admitted =
          let h = minted i now (now + d) in
          let said = to_dict-Describes p f h minted-IsPublishable in
          admitted_complete p s (obj (to_dict p h)) now k h
            (document_reason_complete p (to_dict p h) h said)
            (from_dict-to_dict p f h minted-IsPublishable) minted-Supersedes

      still-IsReady : IsReady (bump i) (hold s (minted i now (now + d)))
      still-IsReady = record {
        participant = r.participant;
        node = r.node;
        boot = r.boot;
        keys = r.keys;
        behind = inr (refl, omega arith);
      }

    -- On such a platform, for an issuer whose identifiers and extension keys satisfy the
    -- contract, whose lease is positive and at most an hour, whose participant is the
    -- consumer's and whose epoch the consumer never saw or holds at a lower sequence, at an
    -- instant that is writable as is its lease end: what it issues is accepted by the
    -- consumer at that instant, and issuer and consumer are afterwards again as required.
    pub deliver-accepted :
        (i : Issuer) (s : LineageState) (now : Instant) (d : ℕ)
        → IsReady i s
        → i.lease ≡ pos d
        → 0 < d
        → d ≤ max_lease
        → IsWritable now
        → IsWritable (now + d)
        → (deliver i s now ≡ ok (admitted (hold s (minted i now (now + d))), bump i))
          × IsReady (bump i) (hold s (minted i now (now + d)))
    unfolding deliver
    deliver-accepted i s now d r e pd md w w' = (
      rw (issue-eq i now d e w'.below, minted-admitted i s now d r pd md w w'),
      still-IsReady i s now d r pd md w w',
    )

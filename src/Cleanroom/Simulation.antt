-- ===== src/Cleanroom/Simulation.antt =====
-- The clean-room consumer follows the core's lineage state.
use mcp_heartbeat.Prelude.{
  Bool, Option, OptionalText, String, ap, arith, false, inl, inr, member, member-insert, none, ok,
  refl, same, same_iff, some, sym, true, ℕ, ◌||◌, ◌∙◌, ◌≡◌,
}
use mcp_heartbeat.Json.{Fields, Json, get, obj, optional_text}
use mcp_heartbeat.Platform.{Instant, Platform}
use mcp_heartbeat.Cleanroom.Interop.{KeepsInstants, covers_lem, validate_lem}
use mcp_heartbeat.Cleanroom.Participant.{
  CleanConsumer, clean_admit, clean_hold, clean_lineage, clean_ok, clean_valid, int_member,
  open_epoch, text_member,
}
use mcp_heartbeat.Cleanroom.Validation.{parse_timestamp}
use mcp_heartbeat.Core.Lineage.{LineageState, admit, admitted, hold, less, same_int}
use mcp_heartbeat.Core.Model.{Heartbeat, optional_int}
use mcp_heartbeat.Core.Parse.{from_dict}
use mcp_heartbeat.Prelude.Int.{ℤ}
use mcp_heartbeat.Core.Lineage.Outcomes.{admitted_sound}
use mcp_heartbeat.Core.Lineage.Rules.{Below, Follows, Supersedes}
use mcp_heartbeat.Core.Parse.Agreement.{from_dict_sound}
use mcp_heartbeat.Core.Parse.Contract.{Describes}

-- The document that the clean-room consumer holds is of the heartbeat that the core holds.
abbrev pub SameHeld : Option Fields → Option Heartbeat → Type 0
SameHeld none none = Unit
SameHeld (some document) (some h) =
    (text_member "boot_id" document ≡ h.boot_id) × (int_member "sequence" document ≡ h.sequence)
SameHeld _ _ = ⊥

-- The two consumers saw the same epochs of the same participant and hold the same counter.
pub record Corresponds (c : CleanConsumer) (s : LineageState) : Type 0 where
  pub participant : c.node_id ≡ s.participant_id
  pub epochs : (x : OptionalText) → member x c.seen_epochs ≡ member x s.retired_epochs
  pub holds : SameHeld c.held s.held

text_member_lem :
    (name : String) (document : Fields) (o : OptionalText)
    → get name document ≡ optional_text o
    → text_member name document ≡ o
text_member_lem name document none e = rw (e, text_member) refl
text_member_lem name document (some s) e = rw (e, text_member) refl

int_member_lem :
    (name : String) (document : Fields) (o : Option ℤ)
    → get name document ≡ optional_int o
    → int_member name document ≡ o
int_member_lem name document none e = rw (e, int_member) refl
int_member_lem name document (some z) e = rw (e, int_member) refl

-- The document says what the heartbeat is.
abbrev Says : Fields → Heartbeat → Type 0
Says document h =
    (text_member "node_id" document ≡ h.node_id)
    × (text_member "boot_id" document ≡ h.boot_id)
    × (int_member "sequence" document ≡ h.sequence)

clean_hold-Corresponds :
    (c : CleanConsumer) (s : LineageState) (document : Fields) (h : Heartbeat)
    → Corresponds c s
    → Says document h
    → Corresponds (clean_hold c document) (hold s h)
clean_hold-Corresponds c s document h r (n, b, q) = record {
  participant = r.participant;
  epochs = λ x.
      member-insert x (text_member "boot_id" document) c.seen_epochs
      ∙ (ap (λ (y : OptionalText). same x y || member x c.seen_epochs) b
          ∙ (ap (λ (z : Bool). same x h.boot_id || z) (r.epochs x)
              ∙ sym (member-insert x h.boot_id s.retired_epochs)));
  holds = (b, q);
}

module _ (p : Platform) (c : CleanConsumer) (s : LineageState) (document : Fields) (h : Heartbeat)
    (r : Corresponds c s) (w : Says document h) where
  not_seen :
      member h.boot_id s.retired_epochs ≡ false
      → open_epoch c document ≡ (clean_ok, clean_hold c document)
  not_seen m =
      let (node, boot, sequence) = w in
      let unseen : member (text_member "boot_id" document) c.seen_epochs ≡ false =
        ap (λ (x : OptionalText). member x c.seen_epochs) boot ∙ (r.epochs h.boot_id ∙ m) in
      rw unseen refl

  less_above : (a b : Option ℤ) → Below b a → (less a b ≡ ok false) × (same_int a b ≡ false)
  unfolding less
  less_above (some a) (some b) l = (ground (arith, l), ground (arith, l))
  less_above none none l = absurd l
  less_above none (some b) l = absurd l
  less_above (some a) none l = absurd l

  clean_lineage_lem :
      (held : Option Fields) (o : Option Heartbeat)
      → c.held ≡ held
      → SameHeld held o
      → Follows s h o
      → clean_lineage p c document ≡ (ok clean_ok, clean_hold c document)
  clean_lineage_lem none none e q l = simp (clean_lineage, e, not_seen l)
  clean_lineage_lem (some d) (some o) e (b, q) (inl (ne, m)) =
      let (node, boot, sequence) = w in
      let other : same (text_member "boot_id" document) (text_member "boot_id" d) ≡ false =
        ground (arith, same_iff h.boot_id o.boot_id, b, boot, ne) in
      simp (clean_lineage, e, other, not_seen m)
  clean_lineage_lem (some d) (some o) e (b, q) (inr (eq, l)) =
      let (node, boot, sequence) = w in
      let alike : same (text_member "boot_id" document) (text_member "boot_id" d) ≡ true =
        ground (arith, same_iff h.boot_id o.boot_id, b, boot, eq) in
      let (low, differ) = less_above h.sequence o.sequence l in
      simp (clean_lineage, e, alike, sequence, q, low, differ)
  clean_lineage_lem none (some o) e q l = absurd q
  clean_lineage_lem (some d) none e q l = absurd q

module _ (p : Platform) (f : KeepsInstants p) where
  described-Corresponds :
      (c : CleanConsumer) (s : LineageState) (raw : Fields) (now : Instant) (k : ℕ) (h : Heartbeat)
      → Corresponds c s
      → Describes p raw h
      → Supersedes s h now k
      → clean_admit p c (obj raw) now ≡ (ok clean_ok, clean_hold c raw)
  unfolding clean_admit
  described-Corresponds c s raw now k h r d v =
      let (valid, expires) = validate_lem p f raw h d in
      let node = text_member_lem "node_id" raw h.node_id d.node_member in
      let mine : same (text_member "node_id" raw) (some c.node_id) ≡ true =
        ground
          (arith, same_iff h.node_id (some s.participant_id), v.participant, r.participant, node) in
      let fresh =
        covers_lem (parse_timestamp p (get "expires_at" raw)) h.expires_at now expires v.fresh in
      let says : Says raw h = (
        node,
        text_member_lem "boot_id" raw h.boot_id d.boot_member,
        int_member_lem "sequence" raw h.sequence d.sequence_member,
      ) in
      simp (
        clean_admit,
        valid,
        clean_valid,
        mine,
        fresh,
        clean_lineage_lem p c s raw h r says c.held s.held refl r.holds v.lineage,
      )

  -- On a platform whose `astimezone` keeps the instant: when a clean-room consumer and a
  -- lineage state of the core correspond (same participant, same epochs seen, same counter
  -- held) and the core's `admit` accepts a document, with any skew, the clean-room `admit` of
  -- the document at that instant returns ok, and the two correspond again.
  pub clean_admit-Corresponds :
      (c : CleanConsumer) (s : LineageState) (document : Json) (now : Instant) (k : ℕ)
      (h : Heartbeat)
      → Corresponds c s
      → admit p s document now k ≡ ok (admitted (hold s h))
      → ((clean_admit p c document now).0 ≡ ok clean_ok)
        × Corresponds (clean_admit p c document now).1 (hold s h)
  unfolding from_dict
  clean_admit-Corresponds c s (obj raw) now k h r e =
      let (reason, parsed, v) = admitted_sound p s (obj raw) now k h e in
      let d = from_dict_sound p raw h parsed in
      let taken = described-Corresponds c s raw now k h r d v in
      let says : Says raw h = (
        text_member_lem "node_id" raw h.node_id d.node_member,
        text_member_lem "boot_id" raw h.boot_id d.boot_member,
        int_member_lem "sequence" raw h.sequence d.sequence_member,
      ) in
      rw taken (refl, clean_hold-Corresponds c s raw h r says)
  clean_admit-Corresponds c s document now k h r e =
      let (reason, parsed, v) = admitted_sound p s document now k h e in cc

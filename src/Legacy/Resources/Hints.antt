-- ===== src/Legacy/Resources/Hints.antt =====
-- What a peer reads from the notifications that announce a heartbeat.
use mcp_heartbeat.Prelude.{
  Bool, List, String, [], arith, eq_iff, false, if◌then◌else◌, none, ok, refl, some, sym, true,
  ◌==◌, ◌>>=◌, ◌∙◌, ◌∷◌, ◌≡◌, ◌≢◌,
}
use mcp_heartbeat.Json.{Fields, str}
use mcp_heartbeat.Platform.{Platform}
use mcp_heartbeat.Text.{digest_re}
use mcp_heartbeat.Core.Model.{Heartbeat, digest, is_digest, revision, show_int, show_text}
use mcp_heartbeat.Core.Ports.{for_heartbeat}
use mcp_heartbeat.Legacy.Failures.{Legacy}
use mcp_heartbeat.Legacy.Resources.{
  LegacyHint, carries_metadata, extended_updated, heartbeat_uri, parse_updated,
  participant_from_uri, standard_updated, strip_prefix, updated_notifications, uri_prefix,
}
use Prim.Native.String.{◌++◌ as append}
use text.Mathlib.TextLemmas.{append-ne-nil_of_right_ne-nil, cons-append, cons≢nil, nil-append}

strip_prefix-append : (q s : String) → strip_prefix q (append q s) ≡ some s
unfolding strip_prefix
strip_prefix-append String.[] s = rw (nil-append s) refl
strip_prefix-append (String.◌∷◌ c q) s =
    rw (cons-append c q s) (ground (arith, strip_prefix-append q s))

colon_not_empty : (s : String) → append ":" s ≢ String.[]
colon_not_empty s = λ e. cons≢nil (sym (cons-append _ "" s) ∙ e)

-- An address names the participant that it was made for, if its name is not empty.
pub participant_from_uri-heartbeat_uri :
    (participant : String)
    → (participant == "") ≡ false
    → participant_from_uri (str (heartbeat_uri participant)) ≡ ok participant
unfolding participant_from_uri heartbeat_uri
participant_from_uri-heartbeat_uri participant h =
    rw (strip_prefix-append uri_prefix participant, h) refl

module _ (p : Platform) where
  abbrev pub announced_hint : Heartbeat → String → String → LegacyHint
  announced_hint h d node = record {
    address = heartbeat_uri node;
    method = extended_updated;
    revision = some (revision p h);
    digest = some d;
    overloaded_standard_method = false;
  }

  abbrev pub plain_hint : String → LegacyHint
  plain_hint node = record {
    address = heartbeat_uri node;
    method = standard_updated;
    revision = none;
    digest = none;
    overloaded_standard_method = false;
  }

  -- what `parse_updated` makes of each notification
  unfoldable pub parse_all : List (String × Fields) → List (Legacy LegacyHint)
  parse_all [] = []
  parse_all ((method, params) ∷ rest) = parse_updated method params ∷ parse_all rest

  revision_not_empty : (h : Heartbeat) → (revision p h == "") ≡ false
  unfolding revision
  revision_not_empty h = ground (
    arith,
    eq_iff (revision p h) "",
    append-ne-nil_of_right_ne-nil (show_text h.boot_id) (colon_not_empty (show_int p h.sequence)),
  )

  parse_all-updated_notifications :
      (h : Heartbeat) (node d : String) (extended : Bool)
      → h.node_id ≡ some node
      → (node == "") ≡ false
      → digest p h ≡ ok d
      → digest_re d ≡ true
      → ((updated_notifications p h extended >>= λ ns. ok (parse_all ns))
          ≡ ok
              (ok (plain_hint node) ∷ (if extended then ok (announced_hint h d node) ∷ [] else [])))
        × (for_heartbeat p h (heartbeat_uri node)
            ≡ ok (record {
              address = str (heartbeat_uri node);
              revision = str (revision p h);
              digest = str d;
            }))
  unfolding parse_all updated_notifications parse_updated for_heartbeat carries_metadata is_digest
  parse_all-updated_notifications h node d false e ne q f =
      let read = participant_from_uri-heartbeat_uri node ne in (simp (e, read), rw q refl)
  parse_all-updated_notifications h node d true e ne q f =
      let read = participant_from_uri-heartbeat_uri node ne in
      (simp (e, read, revision_not_empty h, q, f), rw q refl)

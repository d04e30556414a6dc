-- ===== src/Cleanroom/Participant.antt =====
-- The issuer and the consumer of the clean-room participant.
use Prim.Native.String.{◌++◌ as append}
use mcp_heartbeat.Prelude.{
  Bool, List, Option, OptionalText, String, [], false, if◌then◌else◌, insert, member, none, not, ok,
  raise, same, some, suc, zero, ◌+◌, ◌==◌, ◌>>=◌, ◌∷◌,
}
use mcp_heartbeat.Json.{Fields, Json, end, field, get, int, obj, str}
use mcp_heartbeat.Platform.{Instant, Platform}
use mcp_heartbeat.Text.{drop_last}
use mcp_heartbeat.Cleanroom.Validation.{
  Aware, aware_leb, contract_version, in_utc, parse_timestamp, validate,
}
use mcp_heartbeat.Core.Errors.{Raises}
use mcp_heartbeat.Core.Lineage.{less, same_int}
use mcp_heartbeat.Core.Producer.{add_delta}
use mcp_heartbeat.Prelude.Int.{negsuc, pos, ℤ}

-- `is_fresh`
abbrev pub covers : Option Aware → Instant → Bool
covers none now = false
covers (some expires) now = not (aware_leb expires (in_utc now))

pub record CleanIssuer : Type 0 where
  pub node_id : String
  pub boot_id : String
  pub lease : ℤ
  pub sequence : ℤ

-- `CleanRoomIssuer(node_id, boot_id, lease_seconds)`
abbrev pub new_clean_issuer : String → String → ℤ → CleanIssuer
new_clean_issuer node boot lease = record {
  node_id = node;
  boot_id = boot;
  lease = lease;
  sequence = negsuc 0;
}

abbrev pub next_of : ℤ → ℤ
next_of (pos n) = pos (n + 1)
next_of (negsuc zero) = pos 0
next_of (negsuc (suc n)) = negsuc n

-- `restart`
abbrev pub restart : CleanIssuer → String → CleanIssuer
restart i boot = record i { boot_id = boot; sequence = negsuc 0 }

-- What `admit` returns: "ok" or the code of a refusal.
pub data CleanCode : Type 0 where
  clean_ok clean_invalid clean_other_node clean_expired clean_reuse : CleanCode
  clean_rollback clean_duplicate clean_conflict : CleanCode

pub record CleanConsumer : Type 0 where
  pub node_id : String
  pub held : Option Fields
  pub seen_epochs : List OptionalText

-- A member that is a text or null, as `validate` lets it pass.
abbrev pub text_member : String → Fields → OptionalText
text_member name document = elim (get name document) [ str s ↦ some s | v ↦ none ]

abbrev pub int_member : String → Fields → Option ℤ
int_member name document = elim (get name document) [ int z ↦ some z | v ↦ none ]

-- `_hold`
abbrev pub clean_hold : CleanConsumer → Fields → CleanConsumer
clean_hold c document = record c {
  held = some document;
  seen_epochs = insert (text_member "boot_id" document) c.seen_epochs;
}

-- a document of an epoch that is not the held one
abbrev pub open_epoch : CleanConsumer → Fields → CleanCode × CleanConsumer
open_epoch c document =
    if member (text_member "boot_id" document) c.seen_epochs
    then (clean_reuse, c)
    else (clean_ok, clean_hold c document)

module _ (p : Platform) where
  -- `_format`, of an instant in UTC
  abbrev pub clean_format : Instant → String
  clean_format t = append (drop_last (drop_last (drop_last (p.strftime t)))) "Z"

  abbrev pub clean_document : CleanIssuer → Instant → Instant → Fields
  clean_document i now expires = field "extension_version" (str contract_version) (
      field "node_id" (str i.node_id) (
        field "boot_id" (str i.boot_id) (
          field "sequence" (int i.sequence) (
            field "issued_at" (str (clean_format now))
              (field "expires_at" (str (clean_format expires)) end)))))

  -- `issue`; the counter is raised before the expiry is computed, which may overflow
  unfoldable pub clean_issue : CleanIssuer → Instant → Raises Fields × CleanIssuer
  clean_issue i now =
      let counted : CleanIssuer = record i { sequence = next_of i.sequence } in
      ((do expires ← add_delta now i.lease; ok (clean_document counted now expires)), counted)

  -- the text is ASCII, and can be encoded
  unfoldable pub clean_digest : Fields → String
  clean_digest document = append "sha256:" (p.sha256 (p.dumps_ascii (obj document)))

  -- The sequences of a document and of the held one of its epoch; `<` raises TypeError on None.
  abbrev pub go_on : CleanConsumer → Fields → Fields → Bool → Raises CleanCode × CleanConsumer
  go_on c document held below =
      if below
      then (ok clean_rollback, c)
      else if same_int (int_member "sequence" document) (int_member "sequence" held)
      then if clean_digest document == clean_digest held
        then (ok clean_duplicate, c)
        else (ok clean_conflict, c)
      else (ok clean_ok, clean_hold c document)

  abbrev pub compare_held :
      CleanConsumer → Fields → Fields → Raises Bool → Raises CleanCode × CleanConsumer
  compare_held c document held (ok below) = go_on c document held below
  compare_held c document held (raise e) = (raise e, c)

  abbrev pub clean_lineage : CleanConsumer → Fields → Raises CleanCode × CleanConsumer
  clean_lineage c document = elim c.held [
    | none ↦ let (code, d) = open_epoch c document in (ok code, d)
    | some held ↦
        if same (text_member "boot_id" document) (text_member "boot_id" held)
        then compare_held c document held
            (less (int_member "sequence" document) (int_member "sequence" held))
        else let (code, d) = open_epoch c document in (ok code, d)
  ]

  -- `admit` of a document without violations
  abbrev pub clean_valid : CleanConsumer → Fields → Instant → Raises CleanCode × CleanConsumer
  clean_valid c document now =
      if not (same (text_member "node_id" document) (some c.node_id))
      then (ok clean_other_node, c)
      else if not (covers (parse_timestamp p (get "expires_at" document)) now)
      then (ok clean_expired, c)
      else clean_lineage c document

  unfoldable pub clean_admit : CleanConsumer → Json → Instant → Raises CleanCode × CleanConsumer
  unfolding parse_timestamp
  clean_admit c (obj document) now = elim (validate p (obj document)) [
    | [] ↦ clean_valid c document now
    | v ∷ vs ↦ (ok clean_invalid, c)
  ]
  clean_admit c document now = (ok clean_invalid, c)

-- ===== src/Core/Model.antt =====
-- The heartbeat value, src/mcp_heartbeat/model.py, but for `from_dict` (Core/Parse.antt) and the
-- timestamps (Core/Time.antt). `node_id`, `boot_id` are `participant_id`, `epoch_id`.
use Prim.Native.String.{◌++◌ as append}
use mcp_heartbeat.Prelude.{
  Bool, List, Option, OptionalText, String, [], false, if◌then◌else◌, ltb, none, ok, raise, some,
  ◌∷◌,
}
use mcp_heartbeat.Json.{Fields, Json, end, field, int, null, obj, optional_text, str}
use mcp_heartbeat.Platform.{Instant, Platform}
use mcp_heartbeat.Text.{digest_re}
use mcp_heartbeat.Core.Errors.{Raises, unicode_encode_error}
use mcp_heartbeat.Core.Time.{format_rfc3339}
use mcp_heartbeat.Prelude.Int.{ℤ}

abbrev pub extension_version : String
extension_version = "0.1"

abbrev pub core_fields : List String
core_fields =
    "extension_version" ∷ "node_id" ∷ "boot_id" ∷ "sequence" ∷ "issued_at" ∷ "expires_at" ∷ []

unfoldable pub is_digest : Json → Bool
is_digest (str s) = digest_re s
is_digest _ = false

pub data IdentityBinding : Type 0 where
  bound unbound unverified : IdentityBinding

pub record IdentityClaim : Type 0 where
  pub participant_id : OptionalText
  pub epoch_id : OptionalText
  pub binding : IdentityBinding

-- A self-claim is never proof of identity.
unfoldable pub authenticated : IdentityClaim → Bool
authenticated c = false

-- The annotations say `str` and `int`; a document whose member is null is built with None.
pub record Heartbeat : Type 0 where
  pub node_id : OptionalText
  pub boot_id : OptionalText
  pub sequence : Option ℤ
  pub issued_at : Instant
  pub expires_at : Instant
  pub version : String
  pub extensions : Fields

unfoldable pub identity : Heartbeat → IdentityClaim
identity h = record { participant_id = h.node_id; epoch_id = h.boot_id; binding = unverified }

-- `now` strictly inside the window: `remaining_seconds(now) > 0`
unfoldable pub is_fresh : Heartbeat → Instant → Bool
is_fresh h now = ltb now h.expires_at

-- `if self.extensions: out["extensions"] = …`
abbrev extension_member : Fields → Fields
extension_member end = end
extension_member (field k v fs) = field "extensions" (obj (field k v fs)) end

abbrev pub optional_int : Option ℤ → Json
optional_int none = null
optional_int (some z) = int z

-- A value in an f-string.
abbrev pub show_text : OptionalText → String
show_text none = "None"
show_text (some s) = s

abbrev pub show_int : Platform → Option ℤ → String
show_int p none = "None"
show_int p (some z) = p.str_int z

module _ (p : Platform) where
  unfoldable pub to_dict : Heartbeat → Fields
  unfolding format_rfc3339
  to_dict h = field "extension_version" (str h.version) (
      field "node_id" (optional_text h.node_id) (
        field "boot_id" (optional_text h.boot_id) (
          field "sequence" (optional_int h.sequence) (
            field "issued_at" (str (format_rfc3339 p h.issued_at)) (
              field "expires_at" (str (format_rfc3339 p h.expires_at))
                (extension_member h.extensions))))))

  unfoldable pub digest_of : Json → Raises String
  digest_of payload =
      let raw = p.dumps payload in
      if p.encodes raw then ok (append "sha256:" (p.sha256 raw)) else raise unicode_encode_error

  -- The fingerprint of the wire document.
  unfoldable pub digest : Heartbeat → Raises String
  digest h = digest_of (obj (to_dict h))

  -- `<boot_id>:<sequence>`
  unfoldable pub revision : Heartbeat → String
  revision h = append (show_text h.boot_id) (append ":" (show_int p h.sequence))

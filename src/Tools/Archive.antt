-- ===== src/Tools/Archive.antt =====
-- build_release.py: `normalise_sdist`, which rewrites the container of an archive.
pub mod Reproducible
pub mod Kept
use mcp_heartbeat.Prelude.{
  Bool, List, Option, Result, [], false, if◌then◌else◌, length, none, ok, or_raise, raise, some,
  true, ℕ, ◌>>=◌, ◌||◌, ◌∷◌,
}
use mcp_heartbeat.Json.{members}
use mcp_heartbeat.Tools.Dict.{included, same_dict, set_at, value_at}
use mcp_heartbeat.Tools.Order.{Text, sort_by, text_eq}

-- A `TarInfo` with the bytes that stand behind it.
pub record Member : Type 0 where
  pub name : Text
  pub type : Text
  pub mtime : ℕ
  pub uid : ℕ
  pub gid : ℕ
  pub uname : Text
  pub gname : Text
  pub mode : ℕ
  pub size : ℕ
  pub content : List ℕ

-- What `tarfile` and `gzip` do: an archive is what the file holds.
pub record Tar : Type 1 where
  pub Archive : Type 0
  -- `isdir()` and `isfile()`, of a member's type
  pub is_dir : Text → Bool
  pub is_file : Text → Bool
  -- a PAX archive in a gzip file with no name, mtime 0 and level 9
  pub pack : List Member → Archive
  -- `getmembers()` of `tarfile.open(path, "r:gz")`; `none` is an exception
  pub unpack : Archive → Option (List Member)

pub data Failure : Type 0 where
  unreadable : Failure
  unexpected_member : Text → Failure
  key_missing : Text → Failure
  changed_contents : Failure

-- `dict[str, bytes | None]`
abbrev pub Payloads : Type 0
Payloads = List (Text × Option (List ℕ))

-- `FILE_MODE` and `DIR_MODE`, 0o644 and 0o755
abbrev pub file_mode : ℕ
file_mode = 420

abbrev pub dir_mode : ℕ
dir_mode = 493

-- `==`, of a payload
unfoldable pub same_payload : Option (List ℕ) → Option (List ℕ) → Bool
same_payload none none = true
same_payload none (some b) = false
same_payload (some a) none = false
same_payload (some a) (some b) = text_eq a b

module _ (t : Tar) where
  -- the payload of a member that is a directory or a file
  abbrev pub payload_of : Member → Option (List ℕ)
  payload_of m = if t.is_dir m.type then none else some m.content

  -- the first loop
  unfoldable pub collect : List Member → Payloads → Result Failure Payloads
  unfolding set_at
  collect [] d = ok d
  collect (m ∷ ms) d =
      let rest = collect ms (set_at m.name (payload_of m) d) in
      if t.is_dir m.type || t.is_file m.type then rest else raise (unexpected_member m.name)

  abbrev pub info : ℕ → Text → Text → Option (List ℕ) → Member
  info epoch name type payload = record {
    name = name;
    type = type;
    mtime = epoch;
    uid = 0;
    gid = 0;
    uname = [];
    gname = [];
    mode = elim payload [ none ↦ dir_mode | some b ↦ file_mode ];
    size = elim payload [ none ↦ 0 | some b ↦ length b ];
    content = elim payload [ none ↦ [] | some b ↦ b ];
  }

  -- the second loop, over the sorted members
  unfoldable pub rebuild : ℕ → Payloads → List Member → Result Failure (List Member)
  unfolding value_at
  rebuild epoch d [] = ok []
  rebuild epoch d (m ∷ ms) = or_raise (value_at m.name d) (key_missing m.name) >>= λ payload.
      rebuild epoch d ms >>= λ rest. ok (info epoch m.name m.type payload ∷ rest)

  -- the third loop
  unfoldable pub read_back : List Member → Payloads → Payloads
  unfolding set_at
  read_back [] d = d
  read_back (m ∷ ms) d = read_back ms (set_at m.name (payload_of m) d)

  -- the members of the archive that replaces the one that was read
  unfoldable pub rewritten : ℕ → t.Archive → Result Failure (Payloads × List Member)
  unfolding collect rebuild
  rewritten epoch archive = or_raise (t.unpack archive) unreadable >>= λ members.
      collect members [] >>= λ payloads.
      rebuild epoch payloads (sort_by (λ (m : Member). m.name) members) >>= λ out.
      ok (payloads, out)

  unfoldable pub verify : Payloads → Option (List Member) → Result Failure (Unit {0})
  unfolding read_back included same_payload
  verify payloads none = raise unreadable
  verify payloads (some back) =
      if same_dict same_payload (read_back back []) payloads then ok tt else raise changed_contents

  abbrev pub finish :
      t.Archive → Result Failure (Payloads × List Member) → Result Failure (Unit {0}) × t.Archive
  finish archive (raise e) = (raise e, archive)
  finish archive (ok (payloads, out)) = (verify payloads (t.unpack (t.pack out)), t.pack out)

  -- What it returns or raises, and what the file holds then: it is written before the check.
  unfoldable pub normalise_sdist : ℕ → t.Archive → Result Failure (Unit {0}) × t.Archive
  unfolding rewritten verify
  normalise_sdist epoch archive = finish archive (rewritten epoch archive)

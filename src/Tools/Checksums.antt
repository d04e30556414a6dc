-- ===== src/Tools/Checksums.antt =====
-- build_release.py: SHA256SUMS, written by `render_sha256sums` and read by `parse_sha256sums`.
pub mod Roundtrip
use mcp_heartbeat.Prelude.{Bool, List, [], false, if◌then◌else◌, map, nat_eq, ◌++◌, ◌||◌, ◌∷◌}
use mcp_heartbeat.Text.{codes}
use mcp_heartbeat.Core.Parse.{build}
use mcp_heartbeat.Tools.Dict.{item_key, set_at}
use mcp_heartbeat.Tools.Lines.{
  join, lines_after, lstrip, no_chars, partition, rstrip, splitlines, strip,
}
use mcp_heartbeat.Tools.Order.{Text, sort_by}

-- `dict[str, str]`, from the name of an artifact to its digest
abbrev pub Digests : Type 0
Digests = List (Text × Text)

-- f"{digest}  {name}"
abbrev pub checksum_line : Text × Text → Text
checksum_line (name, digest) = digest ++ (b' ' ∷ b' ' ∷ name)

abbrev pub title : Text
title = codes "# mcp-heartbeat 0.1.0 — release artifact checksums."

abbrev pub header_rest : List Text
header_rest =
    codes "#"
    ∷ codes "# Reproduce with:"
    ∷ codes "#     tools/build_release.py --check"
    ∷ codes "#"
    ∷ codes "# Or by hand, from a clean checkout:"
    ∷ codes "#     SOURCE_DATE_EPOCH=1786838400 python -m build --no-isolation"
    ∷ codes "#     (then normalise the sdist container — see docs/reproducible-builds.md;"
    ∷ codes "#      the wheel needs no normalising and is the backend's own bytes)"
    ∷ codes "#"
    ∷ codes "# Verify with:  sha256sum -c release/SHA256SUMS"
    ∷ []
    ∷ []

abbrev pub sums_header : List Text
sums_header = title ∷ header_rest

-- The items of a dict have distinct names, so that sorting them is sorting by name.
unfoldable pub render_sha256sums : Digests → Text
unfolding join
render_sha256sums digests =
    join (10 ∷ []) (sums_header ++ map checksum_line (sort_by item_key digests)) ++ 10 ∷ []

-- `line.startswith("#")`
abbrev pub is_comment : Text → Bool
is_comment [] = false
is_comment (c ∷ s) = nat_eq c b'#'

abbrev pub add_entry : Text × Bool × Text → Digests → Digests
add_entry (digest, found, name) out =
    if no_chars name then out else set_at (strip name) (strip digest) out

-- one round of the loop, of a line that was stripped
abbrev pub parse_line : Text → Digests → Digests
parse_line line out =
    if no_chars line || is_comment line
    then out
    else add_entry (partition (b' ' ∷ b' ' ∷ []) line) out

unfoldable pub parse_lines : List Text → Digests → Digests
unfolding set_at partition lstrip rstrip
parse_lines [] out = out
parse_lines (line ∷ lines) out = parse_lines lines (parse_line (strip line) out)

unfoldable pub parse_sha256sums : Text → Digests
unfolding parse_lines lines_after
parse_sha256sums content = parse_lines (splitlines content) []

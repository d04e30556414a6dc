-- ===== src/Tools/Checksums/Roundtrip.antt =====
-- `parse_sha256sums` reads back what `render_sha256sums` wrote.
use mathlib.Core.List.Permᴰ
use mcp_heartbeat.Prelude.{List, [], ap, arith, false, map, refl, true, ◌++◌, ◌∙◌, ◌∷◌, ◌≡◌}
use mcp_heartbeat.Tools.Checksums.{
  Digests, checksum_line, header_rest, is_comment, parse_line, parse_lines, parse_sha256sums,
  render_sha256sums, sums_header, title,
}
use mcp_heartbeat.Tools.Dict.{
  item_key, same_dict, same_dict-perm, set_all, set_all-Distinct, set_at,
}
use mcp_heartbeat.Tools.Lines.{lstrip, no_chars, rstrip, strip}
use mcp_heartbeat.Tools.Order.{
  All, All-perm, Distinct, Distinct-perm, Text, perm-sort_by, sort_by, text_eq, text_eq_refl,
}
use mcp_heartbeat.Tools.Lines.Laws.{
  Unbroken, has_boundary, has_boundary-append, has_space, lines_after-join, lstrip-solid,
  partition-solid, rstrip-append, solid-Unbroken, strip-solid,
}

-- A digest: characters that are no white space, of which the first is no `#`.
pub record IsDigest (d : Text) : Type 0 where
  pub solid : has_space d ≡ false
  pub some_chars : no_chars d ≡ false
  pub no_comment : is_comment d ≡ false

-- The name of a file: on one line, with no white space at its ends.
pub record IsFileName (n : Text) : Type 0 where
  pub some_chars : no_chars n ≡ false
  pub one_line : has_boundary n ≡ false
  pub left : lstrip n ≡ n
  pub right : rstrip n ≡ n

abbrev pub IsEntry : Text × Text → Type 0
IsEntry e = IsFileName e.0 × IsDigest e.1

checksum_line-strip : (e : Text × Text) → IsEntry e → strip (checksum_line e) ≡ checksum_line e
checksum_line-strip (n, d) h =
    ap rstrip (lstrip-solid d (b' ' ∷ b' ' ∷ n) h.1.solid h.1.some_chars)
    ∙ rstrip-append d (b' ' ∷ b' ' ∷ n)
        (rstrip-append (b' ' ∷ b' ' ∷ []) n h.0.right h.0.some_chars) refl

parse_line-entry :
    (n d : Text) (out : Digests)
    → IsEntry (n, d)
    → parse_line (checksum_line (n, d)) out ≡ set_at n d out
parse_line-entry n [] out h = absurd (ground (arith, h.1.some_chars))
parse_line-entry n (c ∷ d) out h =
    rw (h.1.no_comment, partition-solid (c ∷ d) n h.1.solid, h.0.some_chars)
      (rw (strip-solid (c ∷ d) h.1.solid, h.0.left, h.0.right) refl)

parse_lines-entries :
    (es : Digests) (out : Digests)
    → All IsEntry es
    → parse_lines (map checksum_line es) out ≡ set_all es out
unfolding parse_lines set_all
parse_lines-entries [] out h = refl
parse_lines-entries ((n, d) ∷ es) out h =
    ap (λ (l : Text). parse_lines (map checksum_line es) (parse_line l out))
      (checksum_line-strip (n, d) h.0)
    ∙ ap (parse_lines (map checksum_line es)) (parse_line-entry n d out h.0)
    ∙ parse_lines-entries es (set_at n d out) h.1

lines-Unbroken : (es : Digests) → All IsEntry es → Unbroken (map checksum_line es)
lines-Unbroken [] h = tt
lines-Unbroken ((n, d) ∷ es) h = (
  rw (has_boundary-append d (b' ' ∷ b' ' ∷ n), solid-Unbroken d h.0.1.solid, h.0.0.one_line) refl,
  lines-Unbroken es h.1,
)

sums_header-Unbroken : (ls : List Text) → Unbroken ls → Unbroken (sums_header ++ ls)
sums_header-Unbroken ls h = (
  refl,
  (refl, (refl, (refl, (refl, (refl, (refl, (refl, (refl, (refl, (refl, (refl, h))))))))))),
)

parse_lines-sums_header : (ls : List Text) → parse_lines (sums_header ++ ls) [] ≡ parse_lines ls []
unfolding parse_lines lstrip rstrip
parse_lines-sums_header ls = refl

-- For a dict of digests with distinct names, whose digests are not empty, have no white space
-- and do not start with a number sign, and whose names are not empty, one line and without
-- white space at the ends: `parse_sha256sums` of what `render_sha256sums` renders is the items
-- of the dict sorted by name, and equals the dict.
pub parse_sha256sums-render_sha256sums :
    (digests : Digests)
    → Distinct item_key digests
    → All IsEntry digests
    → (parse_sha256sums (render_sha256sums digests) ≡ sort_by item_key digests)
      × (same_dict text_eq (parse_sha256sums (render_sha256sums digests)) digests ≡ true)
unfolding parse_sha256sums render_sha256sums
parse_sha256sums-render_sha256sums digests u h =
    let es = sort_by item_key digests in
    let p = perm-sort_by item_key digests in
    let es_entries = All-perm IsEntry p h in
    let us = Distinct-perm item_key p u in
    let read : parse_sha256sums (render_sha256sums digests) ≡ es =
      ap (λ (ls : List Text). parse_lines ls [])
        (lines_after-join title (header_rest ++ map checksum_line es)
          (sums_header-Unbroken (map checksum_line es) (lines-Unbroken es es_entries)))
      ∙ parse_lines-sums_header (map checksum_line es)
      ∙ parse_lines-entries es [] es_entries
      ∙ set_all-Distinct es us in
    (read, rw read (same_dict-perm text_eq text_eq_refl (Permᴰ.symm p) us))

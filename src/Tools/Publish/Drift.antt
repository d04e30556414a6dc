-- ===== src/Tools/Publish/Drift.antt =====
-- A release that was written is what a later check compares with.
use mcp_heartbeat.Prelude.{arith, false, ok, refl, some, true, ◌&&◌, ◌≡◌}
use mcp_heartbeat.Tools.Checksums.{render_sha256sums}
use mcp_heartbeat.Tools.Dict.{item_key, same_dict, same_dict-left}
use mcp_heartbeat.Tools.Order.{All, Distinct, Text, perm-sort_by, text_eq}
use mcp_heartbeat.Tools.Publish.{
  Build, ReleaseEvidence, ReleaseFiles, digests_of, release_evidence, run_release,
}
use mcp_heartbeat.Tools.Checksums.Roundtrip.{IsEntry, parse_sha256sums-render_sha256sums}

module _ {S : Type 0} (render_sbom : S → Text) (render_evidence : ReleaseEvidence → Text) where
  check_after_write :
      (first third fourth : Build) (files : ReleaseFiles)
      → Distinct item_key (digests_of first)
      → All IsEntry (digests_of first)
      → files.sha256sums ≡ some (render_sha256sums (digests_of first))
      → (release_evidence true third fourth files.sha256sums).verdict ≡ (
          same_dict text_eq (digests_of third) (digests_of fourth)
          && same_dict text_eq (digests_of first) (digests_of third))
  unfolding release_evidence
  check_after_write first third fourth files u h e =
      let d = digests_of first in
      let p = perm-sort_by item_key d in
      rw (e, (parse_sha256sums-render_sha256sums d u h).0)
        (rw (same_dict-left text_eq (digests_of third) p u) (ground arith))

  -- After a run that wrote the release files, for a build whose digests and names are ones
  -- that SHA256SUMS can hold, a run with `--check` on any two builds changes no file, and its
  -- verdict is PASS exactly if its two builds agree and the first has the digests that were
  -- written.
  pub run_release-run_release :
      (first second third fourth : Build) (sbom sbom' : S) (files : ReleaseFiles)
      → Distinct item_key (digests_of first)
      → All IsEntry (digests_of first)
      → let (r, files') =
          run_release render_sbom render_evidence false first second (ok sbom) files in
        let (q, after) =
          run_release render_sbom render_evidence true third fourth (ok sbom') files' in
        (evidence : ReleaseEvidence) × (q ≡ ok evidence)
        × (evidence.verdict ≡ (
            same_dict text_eq (digests_of third) (digests_of fourth)
            && same_dict text_eq (digests_of first) (digests_of third)))
        × (after ≡ files')
  unfolding run_release release_evidence
  run_release-run_release first second third fourth sbom sbom' files u h =
      let files' = (run_release render_sbom render_evidence false first second (ok sbom) files).1 in
      (
        release_evidence true third fourth files'.sha256sums,
        refl,
        check_after_write first third fourth files' u h refl,
        refl,
      )

-- ===== src/Tests/Releases.antt =====
-- The release tools, at concrete artifacts.
use mathlib.Core.List.{Permᴰ}
use mcp_heartbeat.Prelude.{
  List, String, [], false, length, map, none, ok, refl, some, true, ℕ, ◌&&◌, ◌∷◌, ◌≡◌,
}
use mcp_heartbeat.Text.{codes}
use mcp_heartbeat.Tools.Archive.{Member, Tar, normalise_sdist}
use mcp_heartbeat.Tools.Checksums.{parse_sha256sums, render_sha256sums}
use mcp_heartbeat.Tools.Dict.{item_key, same_dict}
use mcp_heartbeat.Tools.Lines.{cut_prefix, lstrip, rstrip}
use mcp_heartbeat.Tools.Order.{All, Distinct, Text, sort_by, sorted_insert, text_eq, text_leb}
use mcp_heartbeat.Tools.Publish.{
  Build, ReleaseEvidence, ReleaseFiles, digests_of, run_release, whole_text,
}
use mcp_heartbeat.Tools.Requirements.{
  Component, component_of, is_unconditional, parse_requirement, sbom_components,
}
use mcp_heartbeat.Tools.Archive.Kept.{KeepsContents, normalise_sdist_keeps}
use mcp_heartbeat.Tools.Archive.Reproducible.{content_key, content_of, normalise_sdist_reproducible}
use mcp_heartbeat.Tools.Checksums.Roundtrip.{IsEntry, parse_sha256sums-render_sha256sums}
use mcp_heartbeat.Tools.Publish.Drift.{run_release-run_release}
use mcp_heartbeat.Tools.Requirements.Components.{Honest, sbom_components-ok}

-- an archive that is the list of its members
abbrev toy_tar : Tar
toy_tar = record {
  Archive = List Member;
  is_dir = λ k. text_eq k (b'5' ∷ []);
  is_file = λ k. text_eq k (b'0' ∷ []);
  pack = λ ms. ms;
  unpack = λ ms. some ms;
}

abbrev member_of : String → String → ℕ → String → List ℕ → Member
member_of name kind mtime owner bytes = record {
  name = codes name;
  type = codes kind;
  mtime = mtime;
  uid = 1000;
  gid = 1000;
  uname = codes owner;
  gname = codes owner;
  mode = 436;
  size = length bytes;
  content = bytes;
}

abbrev here_built : List Member
here_built = member_of "pkg" "5" 7 "ann" [] ∷ member_of "pkg/a.py" "0" 7 "ann" (1 ∷ 2 ∷ []) ∷ []

abbrev there_built : List Member
there_built = member_of "pkg/a.py" "0" 9 "bob" (1 ∷ 2 ∷ []) ∷ member_of "pkg" "5" 9 "bob" [] ∷ []

normalise_sdist_reproducible_example :
    (normalise_sdist toy_tar 1786838400 here_built).1
    ≡ (normalise_sdist toy_tar 1786838400 there_built).1
unfolding text_eq
normalise_sdist_reproducible_example =
    normalise_sdist_reproducible toy_tar 1786838400 here_built there_built here_built there_built
      refl refl (Permᴰ.swap refl refl) (refl, (refl, tt)) (refl, (refl, tt))

toy_tar-KeepsContents : KeepsContents toy_tar
toy_tar-KeepsContents es w = (es, refl, refl)

normalise_sdist_keeps_example :
    let (r, after) = normalise_sdist toy_tar 1786838400 here_built in
    (r ≡ ok tt)
    × ((back : List Member) × (some after ≡ some back)
        × (map (content_of toy_tar) back
            ≡ sort_by content_key (map (content_of toy_tar) here_built)))
    × ((normalise_sdist toy_tar 1786838400 after).1 ≡ after)
unfolding text_eq
normalise_sdist_keeps_example =
    normalise_sdist_keeps toy_tar 1786838400 here_built here_built refl (refl, (refl, tt))
      (refl, (refl, tt)) (refl, (refl, tt)) refl toy_tar-KeepsContents

abbrev released : Build
released =
    (codes "pkg.whl", record { sha256 = codes "ab01"; bytes = 10 })
    ∷ (codes "pkg.tar.gz", record { sha256 = codes "cd02"; bytes = 20 })
    ∷ []

abbrev drifted : Build
drifted =
    (codes "pkg.whl", record { sha256 = codes "ab01"; bytes = 10 })
    ∷ (codes "pkg.tar.gz", record { sha256 = codes "ee03"; bytes = 20 })
    ∷ []

released-Distinct : Distinct item_key (digests_of released)
unfolding text_eq
released-Distinct = (refl, (refl, tt))

released-IsEntry : All IsEntry (digests_of released)
unfolding lstrip rstrip
released-IsEntry = (
  (
    record { some_chars = refl; one_line = refl; left = refl; right = refl },
    record { solid = refl; some_chars = refl; no_comment = refl },
  ),
  (
    (
      record { some_chars = refl; one_line = refl; left = refl; right = refl },
      record { solid = refl; some_chars = refl; no_comment = refl },
    ),
    tt,
  ),
)

parse_sha256sums-render_sha256sums_example :
    (parse_sha256sums (render_sha256sums (digests_of released))
      ≡ sort_by item_key (digests_of released))
    × (same_dict text_eq
          (parse_sha256sums (render_sha256sums (digests_of released)))
          (digests_of released)
        ≡ true)
parse_sha256sums-render_sha256sums_example =
    parse_sha256sums-render_sha256sums (digests_of released) released-Distinct released-IsEntry

abbrev no_release : ReleaseFiles
no_release = record { sha256sums = none; sbom = none; reproducibility = none; dist = [] }

abbrev no_text : ReleaseEvidence → Text
no_text e = []

run_release-run_release_example :
    let (r, files) = run_release whole_text no_text false released released (ok []) no_release in
    let (q, after) = run_release whole_text no_text true drifted drifted (ok []) files in
    (evidence : ReleaseEvidence) × (q ≡ ok evidence)
    × (evidence.verdict ≡ (
        same_dict text_eq (digests_of drifted) (digests_of drifted)
        && same_dict text_eq (digests_of released) (digests_of drifted)))
    × (after ≡ files)
run_release-run_release_example =
    run_release-run_release whole_text no_text released released drifted drifted [] [] no_release
      released-Distinct released-IsEntry

abbrev wheel_requires : List Text
wheel_requires = codes "mcp==2.0.0; extra == \"sdk\"" ∷ codes "pytest>=8; extra == \"dev\"" ∷ []

abbrev wheel_components : List Component
wheel_components =
    (record {
      name = codes "pytest";
      purl = codes "pkg:pypi/pytest";
      scope = codes "optional";
      extra = codes "dev";
      specifier = codes ">=8";
      pinned = false;
      requires_dist = codes "pytest>=8; extra == \"dev\"";
      version = none;
    })
    ∷ (record {
      name = codes "mcp";
      purl = codes "pkg:pypi/mcp@2.0.0";
      scope = codes "optional";
      extra = codes "sdk";
      specifier = codes "==2.0.0";
      pinned = true;
      requires_dist = codes "mcp==2.0.0; extra == \"sdk\"";
      version = some (codes "2.0.0");
    })
    ∷ []

wheel_read : sbom_components wheel_requires ≡ ok wheel_components
unfolding sbom_components lstrip rstrip cut_prefix text_leb sorted_insert
wheel_read = refl

sbom_components-ok_example :
    All (λ (e : Text). is_unconditional (parse_requirement e) ≡ false) wheel_requires
    × Permᴰ (map component_of (map parse_requirement wheel_requires)) wheel_components
    × All Honest wheel_components
sbom_components-ok_example = sbom_components-ok wheel_requires wheel_components wheel_read

-- ===== src/Tools/Publish.antt =====
-- build_release.py: `run`, from the two builds on. The evidence is built by code that only
-- assembles texts: the parts of it that decide something are here.
pub mod Drift
use mcp_heartbeat.Prelude.{
  Bool, List, Option, Result, String, [], false, if◌then◌else◌, map, none, not, ok, raise, some,
  true, ℕ, ◌&&◌, ◌++◌, ◌||◌, ◌∷◌,
}
use mcp_heartbeat.Conformance.Verdicts.{check}
use mcp_heartbeat.Core.Ports.{matches}
use mcp_heartbeat.Current.Convergence.{verdict}
use mcp_heartbeat.Tools.Archive.{Failure}
use mcp_heartbeat.Tools.Checksums.{Digests, parse_sha256sums, render_sha256sums}
use mcp_heartbeat.Tools.Dict.{item_key, same_dict, value_at}
use mcp_heartbeat.Tools.Order.{Text, sort_by, text_eq}

-- What `build_pass` reports of an artifact.
pub record Artifact : Type 0 where
  pub sha256 : Text
  pub bytes : ℕ

-- the artifacts of a build, by name
abbrev pub Build : Type 0
Build = List (Text × Artifact)

abbrev pub name_and_digest : Text × Artifact → Text × Text
name_and_digest e = (e.0, e.1.sha256)

-- `{name: entry["sha256"] for name, entry in …}`
abbrev pub digests_of : Build → Digests
digests_of b = map name_and_digest b

abbrev pub whole_text : Text → Text
whole_text n = n

abbrev pub same_optional : Option Text → Option Text → Bool
same_optional none none = true
same_optional none (some b) = false
same_optional (some a) none = false
same_optional (some a) (some b) = text_eq a b

-- the names whose digests differ
unfoldable pub differing : Digests → Digests → List Text
unfolding value_at
differing [] e = []
differing ((k, v) ∷ d) e =
    let rest = differing d e in if same_optional (some v) (value_at k e) then rest else k ∷ rest

-- `Path.read_text` of release/SHA256SUMS if it is a file, what the other files hold, and the
-- copies that were made into dist, in their order.
pub record ReleaseFiles : Type 0 where
  pub sha256sums : Option Text
  pub sbom : Option Text
  pub reproducibility : Option Text
  pub dist : List Text

pub record ReleaseCheck : Type 0 where
  pub check : String
  pub ok_ : Bool

-- `record`, less the texts that describe the recipe
pub record ReleaseEvidence : Type 0 where
  pub verdict : Bool
  pub mismatched : List Text
  pub committed : Option Digests
  pub matches_committed : Option Bool
  pub checks : List ReleaseCheck
  pub builds : List Build
  pub digests : Digests

-- `matches_committed is not False`
abbrev pub not_false : Option Bool → Bool
not_false none = true
not_false (some b) = b

abbrev pub compare_with : Option Digests → Digests → Option Bool
compare_with none digests = none
compare_with (some committed) digests = some (same_dict text_eq committed digests)

-- `checks`, less their details; `build_sbom` raised if the last does not hold
abbrev pub release_checks : Bool → Bool → List ReleaseCheck
release_checks reproducible kept =
    (record { check = "the_two_independent_builds_agree_byte_for_byte"; ok_ = reproducible })
    ∷ (record { check = "the_rebuild_matches_the_committed_checksums"; ok_ = kept })
    ∷ (record { check = "the_wheel_declares_no_unconditional_dependency"; ok_ = true })
    ∷ []

unfoldable pub release_evidence : Bool → Build → Build → Option Text → ReleaseEvidence
unfolding differing parse_sha256sums
release_evidence check_only first second sums =
    let digests = digests_of first in
    let reproducible = same_dict text_eq digests (digests_of second) in
    let committed : Option Digests = elim sums [
      | none ↦ none
      | some s ↦ some (parse_sha256sums s)
    ] in
    let matches = compare_with committed digests in
    let kept = not_false matches || not check_only in
    record {
      verdict = reproducible && kept;
      mismatched = sort_by whole_text (differing digests (digests_of second));
      committed = committed;
      matches_committed = matches;
      checks = release_checks reproducible kept;
      builds = first ∷ second ∷ [];
      digests = digests;
    }

-- the texts of sbom.json and reproducibility.json, which json.dumps makes
module _ {S : Type 0} (render_sbom : S → Text) (render_evidence : ReleaseEvidence → Text) where
  -- what is written unless `--check` is given
  abbrev pub write_release : Bool → Build → S → ReleaseEvidence → ReleaseFiles → ReleaseFiles
  write_release check_only first sbom evidence files = if check_only then files else record {
    sha256sums = some (render_sha256sums evidence.digests);
    sbom = some (render_sbom sbom);
    reproducibility = some (render_evidence evidence);
    dist = files.dist ++ map item_key first;
  }

  -- `build_sbom` raises if the wheel has an unconditional dependency
  unfoldable pub run_release :
      Bool
      → Build
      → Build
      → Result Failure S
      → ReleaseFiles
      → Result Failure ReleaseEvidence × ReleaseFiles
  unfolding release_evidence render_sha256sums
  run_release check_only first second (raise e) files = (raise e, files)
  run_release check_only first second (ok sbom) files =
      let evidence = release_evidence check_only first second files.sha256sums in
      (ok evidence, write_release check_only first sbom evidence files)

  -- `main`: the exit code
  abbrev pub exit_code : ReleaseEvidence → ℕ
  exit_code e = if e.verdict then 0 else 1

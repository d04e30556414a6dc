-- ===== src/Tools/Requirements.antt =====
-- build_release.py: `parse_requirement`, and the components that `build_sbom` makes of the
-- requirements of a wheel.
pub mod Components
use mcp_heartbeat.Prelude.{
  Bool, List, Option, Result, [], false, if◌then◌else◌, map, nat_eq, none, ok, raise, some, true, ℕ,
  ◌&&◌, ◌++◌, ◌∷◌,
}
use mcp_heartbeat.Text.{codes}
use mcp_heartbeat.Tools.Lines.{no_chars, occurs, partition, strip}
use mcp_heartbeat.Tools.Order.{Text, sort_by}

-- The operators, in the order in which they are looked for.
pub data Operator : Type 0 where
  exact at_least at_most compatible excluded above below : Operator

abbrev pub spelling : Operator → Text
spelling exact = codes "=="
spelling at_least = codes ">="
spelling at_most = codes "<="
spelling compatible = codes "~="
spelling excluded = codes "!="
spelling above = codes ">"
spelling below = codes "<"

abbrev pub operators : List Operator
operators = exact ∷ at_least ∷ at_most ∷ compatible ∷ excluded ∷ above ∷ below ∷ []

pub record Requirement : Type 0 where
  pub name : Text
  pub version : Option Text
  pub specifier : Option Text
  pub extra : Option Text
  pub marker : Text
  pub raw : Text

abbrev pub pinned_limit : Operator → Text → Option Text
pinned_limit exact limit = some limit
pinned_limit _ limit = none

-- name, specifier and pinned version, from where the first operator that occurs was found
abbrev pub bounded : Operator → Text × Bool × Text → Text × Option Text × Option Text
bounded op (name, found, limit) =
    (strip name, some (spelling op ++ strip limit), pinned_limit op (strip limit))

-- the loop over the operators
unfoldable pub find_operator : List Operator → Text → Text × Option Text × Option Text
unfolding partition
find_operator [] requirement = (requirement, none, none)
find_operator (op ∷ ops) requirement =
    let rest = find_operator ops requirement in
    if occurs (spelling op) requirement
    then bounded op (partition (spelling op) requirement)
    else rest

-- `text.strip(quote)`, for one character
unfoldable pub lstrip_char : ℕ → Text → Text
lstrip_char q [] = []
lstrip_char q (c ∷ s) = if nat_eq c q then lstrip_char q s else c ∷ s

unfoldable pub rstrip_char : ℕ → Text → Text
rstrip_char q [] = []
rstrip_char q (c ∷ s) = let r = rstrip_char q s in if nat_eq c q && no_chars r then [] else c ∷ r

abbrev pub strip_char : ℕ → Text → Text
strip_char q s = rstrip_char q (lstrip_char q s)

-- `marker.split("extra ==")[1].strip().strip('"').strip("'")`, if the separator occurs
abbrev pub extra_of : Text → Option Text
extra_of marker =
    let (before, found, after) = partition (codes "extra ==") marker in
    if found
    then some (strip_char 39 (strip_char 34 (strip (partition (codes "extra ==") after).0)))
    else none

abbrev pub requirement_of : Text → Text → Text × Option Text × Option Text → Requirement
requirement_of entry marker (name, specifier, pinned) = record {
  name = name;
  version = pinned;
  specifier = specifier;
  extra = extra_of marker;
  marker = marker;
  raw = entry;
}

unfoldable pub parse_requirement : Text → Requirement
unfolding find_operator lstrip_char rstrip_char
parse_requirement entry =
    let (requirement, found, marker) = partition (codes ";") entry in
    requirement_of entry (strip marker) (find_operator operators (strip requirement))

-- A component of the SBOM; its `bom-ref` is its purl.
pub record Component : Type 0 where
  pub name : Text
  pub purl : Text
  pub scope : Text
  pub extra : Text
  pub specifier : Text
  pub pinned : Bool
  pub requires_dist : Text
  pub version : Option Text

-- `req["version"]`, if it is true: a version that is empty is not
abbrev pub given : Option Text → Option Text
given none = none
given (some v) = if no_chars v then none else some v

-- `text or default`
abbrev pub or_text : Option Text → Text → Text
or_text none d = d
or_text (some t) d = if no_chars t then d else t

abbrev pub purl_of : Text → Option Text → Text
purl_of name none = codes "pkg:pypi/" ++ name
purl_of name (some v) = codes "pkg:pypi/" ++ (name ++ b'@' ∷ v)

abbrev pub has_version : Option Text → Bool
has_version none = false
has_version (some v) = true

-- `req["extra"]` is a text where this is called
abbrev pub component_of : Requirement → Component
component_of r = record {
  name = r.name;
  purl = purl_of r.name (given r.version);
  scope = codes "optional";
  extra = or_text r.extra [];
  specifier = or_text r.specifier (codes "any");
  pinned = has_version (given r.version);
  requires_dist = r.raw;
  version = given r.version;
}

abbrev pub is_unconditional : Requirement → Bool
is_unconditional r = elim r.extra [ none ↦ true | some x ↦ false ]

-- the requirements of no extra, by their lines
unfoldable pub unconditional : List Requirement → List Text
unconditional [] = []
unconditional (r ∷ rs) =
    let rest = unconditional rs in if is_unconditional r then r.raw ∷ rest else rest

-- the key `(extra or "", name)`: extras are compared first
abbrev pub extra_key : Requirement → Text
extra_key r = or_text r.extra []

abbrev pub name_key : Requirement → Text
name_key r = r.name

pub data SbomFailure : Type 0 where
  unconditional_dependencies : List Text → SbomFailure

-- `components`, of requirements that all have an extra; two stable sorts are one by the pair of keys
abbrev pub listed_components : List Requirement → List Component
listed_components requirements =
    map component_of (sort_by extra_key (sort_by name_key requirements))

-- `components` of `build_sbom`, or what it raises
unfoldable pub sbom_components : List Text → Result SbomFailure (List Component)
unfolding parse_requirement unconditional sort_by
sbom_components entries =
    let requirements = map parse_requirement entries in
    elim (unconditional requirements) [
      | [] ↦ ok (listed_components requirements)
      | l ∷ ls ↦ raise (unconditional_dependencies (l ∷ ls))
    ]

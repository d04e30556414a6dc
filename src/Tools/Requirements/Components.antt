-- ===== src/Tools/Requirements/Components.antt =====
-- What the components of an SBOM say of the requirements that they come from.
use mathlib.Core.List.{Permᴰ}
use mathlib.Core.Path.{subst}
use mcp_heartbeat.Prelude.{
  Bool, Bool-cases, List, Option, Option-cases, [], arith, false, if◌then◌else◌, inl, inr, map,
  none, ok, raise, refl, some, true, ◌++◌, ◌∷◌, ◌≡◌, ◌⊎◌,
}
use mcp_heartbeat.Text.{codes}
use mcp_heartbeat.Tools.Lines.{occurs, partition, strip}
use mcp_heartbeat.Tools.Order.{All, All-perm, All-of_map, Text, map-perm, perm-sort_by, sort_by}
use mcp_heartbeat.Tools.Requirements.{
  Component, Operator, Requirement, above, at_least, at_most, below, bounded, compatible,
  component_of, exact, excluded, extra_key, find_operator, is_unconditional, name_key, operators,
  parse_requirement, sbom_components, spelling, unconditional, unconditional_dependencies,
}

-- A version is pinned only by `==`, and then the specifier says so.
abbrev pub Pins : Option Text → Option Text → Type 0
Pins none specifier = Unit
Pins (some v) specifier = specifier ≡ some (codes "==" ++ v)

abbrev PinsExactly : Text × Option Text × Option Text → Type 0
PinsExactly (name, specifier, version) = Pins version specifier

bounded-PinsExactly : (op : Operator) (t : Text × Bool × Text) → PinsExactly (bounded op t)
bounded-PinsExactly exact t = refl
bounded-PinsExactly at_least t = tt
bounded-PinsExactly at_most t = tt
bounded-PinsExactly compatible t = tt
bounded-PinsExactly excluded t = tt
bounded-PinsExactly above t = tt
bounded-PinsExactly below t = tt

either {ℓ κ} :
    {A : Type ℓ} (P : A → Type κ) (b : Bool) (x y : A) → P x → P y → P (if b then x else y)
either P true x y h k = h
either P false x y h k = k

find_operator-PinsExactly : (ops : List Operator) (s : Text) → PinsExactly (find_operator ops s)
unfolding find_operator
find_operator-PinsExactly [] s = tt
find_operator-PinsExactly (op ∷ ops) s =
    either PinsExactly (occurs (spelling op) s) (bounded op (partition (spelling op) s))
      (find_operator ops s) (bounded-PinsExactly op (partition (spelling op) s))
      (find_operator-PinsExactly ops s)

pub parse_requirement-Pins :
    (entry : Text) → let r = parse_requirement entry in Pins r.version r.specifier
unfolding parse_requirement
parse_requirement-Pins entry =
    find_operator-PinsExactly operators (strip (partition (codes ";") entry).0)

-- What a component says of versions: one that is stated is the one that `==` asks for, and the
-- purl carries it.
abbrev pub Honest : Component → Type 0
Honest c =
    ((c.version ≡ none) × (c.pinned ≡ false) × (c.purl ≡ codes "pkg:pypi/" ++ c.name))
    ⊎ ((v : Text) × (c.version ≡ some v)
        × (c.pinned ≡ true)
        × (c.specifier ≡ codes "==" ++ v)
        × (c.purl ≡ codes "pkg:pypi/" ++ (c.name ++ b'@' ∷ v)))

component_of-Honest : (r : Requirement) → Pins r.version r.specifier → Honest (component_of r)
component_of-Honest r h = elim (Option-cases r.version) [
  | inl e ↦ rw e (inl (refl, refl, refl))
  | inr (v, e) ↦ component_of_version v r e (subst (λ (x : Option Text). Pins x r.specifier) e h)
]
  where
    component_of_version :
        (v : Text) (r : Requirement)
        → r.version ≡ some v
        → r.specifier ≡ some (codes "==" ++ v)
        → Honest (component_of r)
    component_of_version [] r e q = rw e (inl (refl, refl, refl))
    component_of_version (c ∷ v) r e q = rw (e, q) (inr (c ∷ v, refl, refl, refl, refl))

abbrev entry_component : Text → Component
entry_component e = component_of (parse_requirement e)

All-conditional :
    (rs : List Requirement)
    → unconditional rs ≡ []
    → All (λ (r : Requirement). is_unconditional r ≡ false) rs
unfolding unconditional
All-conditional [] e = tt
All-conditional (r ∷ rs) e = elim (Bool-cases (is_unconditional r)) [
  | inl y ↦ cc
  | inr n ↦ (n, All-conditional rs (ground (arith, e, n)))
]

components-Honest :
    (rs : List Requirement)
    → All (λ (r : Requirement). Pins r.version r.specifier) rs
    → All Honest (map component_of rs)
components-Honest [] h = tt
components-Honest (r ∷ rs) h = (component_of-Honest r h.0, components-Honest rs h.1)

parsed-Pins :
    (es : List Text)
    → All (λ (r : Requirement). Pins r.version r.specifier) (map parse_requirement es)
parsed-Pins [] = tt
parsed-Pins (e ∷ es) = (parse_requirement-Pins e, parsed-Pins es)

-- When the components of the SBOM are built from lines of Requires-Dist, every line has an
-- extra, the components are a rearrangement of those of the lines, and each of them either has
-- a version, the specifier of exactly that version, is pinned and carries it in its purl, or
-- has none and is not pinned.
pub sbom_components-ok :
    (entries : List Text) (cs : List Component)
    → sbom_components entries ≡ ok cs
    → All (λ (e : Text). is_unconditional (parse_requirement e) ≡ false) entries
      × Permᴰ (map component_of (map parse_requirement entries)) cs
      × All Honest cs
unfolding sbom_components
sbom_components-ok entries cs e = listed (unconditional rs) refl e
  where
    rs : List Requirement
    rs = map parse_requirement entries

    sorted : List Requirement
    sorted = sort_by extra_key (sort_by name_key rs)

    p : Permᴰ rs sorted
    p = Permᴰ.trans (perm-sort_by name_key rs) (perm-sort_by extra_key (sort_by name_key rs))

    listed :
        (l : List Text)
        → unconditional rs ≡ l
        → (elim l [
          | [] ↦ ok (map component_of sorted)
          | x ∷ xs ↦ raise (unconditional_dependencies (x ∷ xs))
        ])
          ≡ ok cs
        → All (λ (e : Text). is_unconditional (parse_requirement e) ≡ false) entries
          × Permᴰ (map component_of rs) cs
          × All Honest cs
    listed [] u q =
        let same : map component_of sorted ≡ cs = cc in
        (
          All-of_map (λ (r : Requirement). is_unconditional r ≡ false) parse_requirement entries
              (All-conditional rs u),
          subst (λ (x : List Component). Permᴰ (map component_of rs) x) same
              (map-perm component_of p),
          subst (All Honest) same (
              components-Honest sorted (
                All-perm (λ (r : Requirement). Pins r.version r.specifier) p
                  (parsed-Pins entries))),
        )
    listed (x ∷ xs) u q = cc

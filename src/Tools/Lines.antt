-- ===== src/Tools/Lines.antt =====
-- The methods of `str` that the release tools use, over code points.
pub mod Laws
use mcp_heartbeat.Prelude.{
  Bool, List, Option, [], false, if◌then◌else◌, leb, nat_eq, none, some, true, ℕ, ◌&&◌, ◌++◌, ◌||◌,
  ◌∷◌,
}
use mcp_heartbeat.Tools.Order.{Text}

-- `str.isspace`, of one character
abbrev pub is_space : ℕ → Bool
is_space c =
    leb 9 c && leb c 13
    || leb 28 c && leb c 32
    || nat_eq c 0x85
    || nat_eq c 0xa0
    || nat_eq c 0x1680
    || leb 0x2000 c && leb c 0x200a
    || nat_eq c 0x2028
    || nat_eq c 0x2029
    || nat_eq c 0x202f
    || nat_eq c 0x205f
    || nat_eq c 0x3000

-- where `str.splitlines` ends a line
abbrev pub is_boundary : ℕ → Bool
is_boundary c =
    leb 10 c && leb c 13
    || leb 28 c && leb c 30
    || nat_eq c 0x85
    || nat_eq c 0x2028
    || nat_eq c 0x2029

abbrev pub no_chars : Text → Bool
no_chars [] = true
no_chars (c ∷ s) = false

-- `text.strip()`
unfoldable pub lstrip : Text → Text
lstrip [] = []
lstrip (c ∷ s) = if is_space c then lstrip s else c ∷ s

unfoldable pub rstrip : Text → Text
rstrip [] = []
rstrip (c ∷ s) = let r = rstrip s in if is_space c && no_chars r then [] else c ∷ r

abbrev pub strip : Text → Text
strip s = rstrip (lstrip s)

-- a character before the first of the lines that follow it
abbrev pub add_to_first : ℕ → List Text → List Text
add_to_first c [] = (c ∷ []) ∷ []
add_to_first c (l ∷ ls) = (c ∷ l) ∷ ls

-- the lines, after a carriage return or not: a line feed belongs to it
unfoldable pub lines_after : Bool → Text → List Text
lines_after cr [] = []
lines_after cr (c ∷ s) =
    let rest = lines_after (nat_eq c 13) s in
    if cr && nat_eq c 10 then rest else if is_boundary c then [] ∷ rest else add_to_first c rest

-- `text.splitlines()`
abbrev pub splitlines : Text → List Text
splitlines s = lines_after false s

-- what follows a prefix
unfoldable pub cut_prefix : Text → Text → Option Text
cut_prefix [] s = some s
cut_prefix (p ∷ ps) [] = none
cut_prefix (p ∷ ps) (c ∷ s) = if nat_eq p c then cut_prefix ps s else none

abbrev pub cons_before : ℕ → Text × Bool × Text → Text × Bool × Text
cons_before c (a, found, b) = (c ∷ a, found, b)

-- `text.partition(separator)`, for one that is not empty; whether it was found, in place of it
unfoldable pub partition : Text → Text → Text × Bool × Text
unfolding cut_prefix
partition sep [] = ([], false, [])
partition sep (c ∷ s) =
    let rest = partition sep s in
    elim (cut_prefix sep (c ∷ s)) [ some r ↦ ([], true, r) | none ↦ cons_before c rest ]

-- `separator in text`
abbrev pub occurs : Text → Text → Bool
occurs sep s = (partition sep s).1

-- `separator.join(lines)`
unfoldable pub join : Text → List Text → Text
join sep [] = []
join sep (l ∷ []) = l
join sep (l ∷ m ∷ ls) = l ++ (sep ++ join sep (m ∷ ls))

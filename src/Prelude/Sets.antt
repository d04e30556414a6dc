-- ===== src/Prelude/Sets.antt =====
-- A tuple of texts, a value that is a text or None, and a `frozenset` of these.
use Prim.Native.String.{String}
use mathlib.Core.Path.{◌≡◌}
use mathlib.Core.Logic.{◌↔◌}
use mathlib.Core.Bool.{Bool, true, false, ◌||◌}
use mathlib.Core.Option.{Option, none, some}
use mathlib.Core.List.{List, [], ◌∷◌}
use native.Mathlib.Omega.{arith}
use text.Mathlib.Text.{◌==◌}
use text.Mathlib.TextEquality.{eq_iff}
use mcp_heartbeat.Prelude.Tests.{if◌then◌else◌}

-- `x in xs`
abbrev pub contains : String → List String → Bool
contains x [] = false
contains x (y ∷ ys) = x == y || contains x ys

-- A text, or None.
abbrev pub OptionalText : Type 0
OptionalText = Option String

abbrev pub same : OptionalText → OptionalText → Bool
same none none = true
same none (some t) = false
same (some s) none = false
same (some s) (some t) = s == t

pub same_iff : (a b : OptionalText) → (same a b ≡ true) ↔ (a ≡ b)
same_iff none none = ground arith
same_iff none (some t) = ground arith
same_iff (some s) none = ground arith
same_iff (some s) (some t) = ground (arith, eq_iff s t)

pub same_refl : (a : OptionalText) → same a a ≡ true
same_refl a = (same_iff a a).1 (λ i. a)

-- `x in xs`, for a set
abbrev pub member : OptionalText → List OptionalText → Bool
member x [] = false
member x (y ∷ ys) = same x y || member x ys

-- `xs | {x}`
abbrev pub insert : OptionalText → List OptionalText → List OptionalText
insert x xs = if member x xs then xs else x ∷ xs

pub member-insert :
    (x y : OptionalText) (xs : List OptionalText)
    → member x (insert y xs) ≡ (same x y || member x xs)
member-insert x y xs = ground (arith, same_iff x y)

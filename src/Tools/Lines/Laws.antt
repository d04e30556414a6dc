-- ===== src/Tools/Lines/Laws.antt =====
-- Lines that are put together come apart again.
use mathlib.Core.List.{append_assoc}
use mcp_heartbeat.Prelude.{
  Bool, List, [], ap, arith, false, if◌then◌else◌, refl, true, ℕ, ◌&&◌, ◌++◌, ◌||◌, ◌∙◌, ◌∷◌, ◌≡◌,
}
use mcp_heartbeat.Tools.Lines.{
  cut_prefix, is_boundary, is_space, join, lines_after, lstrip, no_chars, partition, rstrip, strip,
}
use mcp_heartbeat.Tools.Order.{Text}

abbrev pub has_boundary : Text → Bool
has_boundary [] = false
has_boundary (c ∷ s) = is_boundary c || has_boundary s

abbrev pub has_space : Text → Bool
has_space [] = false
has_space (c ∷ s) = is_space c || has_space s

-- no line of a list is broken
abbrev pub Unbroken : List Text → Type 0
Unbroken [] = Unit
Unbroken (l ∷ ls) = (has_boundary l ≡ false) × Unbroken ls

lines_after-line :
    (l rest : Text)
    → has_boundary l ≡ false
    → lines_after false (l ++ 10 ∷ rest) ≡ l ∷ lines_after false rest
unfolding lines_after
lines_after-line [] rest h = refl
lines_after-line (c ∷ l) rest h = ground (arith, lines_after-line l rest)

pub lines_after-join :
    (l : Text) (ls : List Text)
    → Unbroken (l ∷ ls)
    → lines_after false (join (10 ∷ []) (l ∷ ls) ++ 10 ∷ []) ≡ l ∷ ls
unfolding join lines_after
lines_after-join l [] h = lines_after-line l [] h.0
lines_after-join l (m ∷ ls) h =
    ap (lines_after false) (append_assoc l (10 ∷ join (10 ∷ []) (m ∷ ls)) (10 ∷ []))
    ∙ lines_after-line l (join (10 ∷ []) (m ∷ ls) ++ 10 ∷ []) h.0
    ∙ ap (λ (x : List Text). l ∷ x) (lines_after-join m ls h.1)

pub rstrip-append : (s t : Text) → rstrip t ≡ t → no_chars t ≡ false → rstrip (s ++ t) ≡ s ++ t
unfolding rstrip
rstrip-append [] t h n = h
rstrip-append (c ∷ s) t h n = rw (rstrip-append s t h n) (tail_kept c s t n)
  where
    tail_kept :
        (c : ℕ) (s t : Text)
        → no_chars t ≡ false
        → (if is_space c && no_chars (s ++ t) then [] else c ∷ (s ++ t)) ≡ c ∷ (s ++ t)
    tail_kept c [] t n = rw n (ground arith)
    tail_kept c (d ∷ s) t n = ground arith

rstrip-solid : (s : Text) → has_space s ≡ false → rstrip s ≡ s
unfolding rstrip
rstrip-solid [] h = refl
rstrip-solid (c ∷ s) h = ground (arith, rstrip-solid s)

pub lstrip-solid :
    (s t : Text) → has_space s ≡ false → no_chars s ≡ false → lstrip (s ++ t) ≡ s ++ t
unfolding lstrip
lstrip-solid [] t h n = ground arith
lstrip-solid (c ∷ s) t h n = ground arith

lstrip-all_solid : (s : Text) → has_space s ≡ false → lstrip s ≡ s
unfolding lstrip
lstrip-all_solid [] h = refl
lstrip-all_solid (c ∷ s) h = ground arith

pub strip-solid : (s : Text) → has_space s ≡ false → strip s ≡ s
strip-solid s h = ap rstrip (lstrip-all_solid s h) ∙ rstrip-solid s h

pub partition-solid :
    (s t : Text)
    → has_space s ≡ false
    → partition (b' ' ∷ b' ' ∷ []) (s ++ (b' ' ∷ b' ' ∷ t)) ≡ (s, true, t)
unfolding partition cut_prefix
partition-solid [] t h = refl
partition-solid (c ∷ s) t h = ground (arith, partition-solid s t)

pub solid-Unbroken : (s : Text) → has_space s ≡ false → has_boundary s ≡ false
solid-Unbroken [] h = refl
solid-Unbroken (c ∷ s) h = ground (arith, solid-Unbroken s)

pub has_boundary-append : (s t : Text) → has_boundary (s ++ t) ≡ (has_boundary s || has_boundary t)
has_boundary-append [] t = refl
has_boundary-append (c ∷ s) t = ground (arith, has_boundary-append s t)

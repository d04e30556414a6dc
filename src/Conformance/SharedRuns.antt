-- ===== src/Conformance/SharedRuns.antt =====
-- cleanroom.py: `longest_shared_run`, the measure of what two sources share.
use mathlib.Core.List.{append_assoc}
use mcp_heartbeat.Prelude.{
  Bool-cases, List, String, [], ap, arith, contains, if◌then◌else◌, inl, inr, length, ltb, refl,
  suc, sym, true, ℕ, ◌++◌, ◌+◌, ◌∙◌, ◌∷◌, ◌≡◌, ◌≤◌,
}
use mcp_heartbeat.Current.Convergence.Authority.{run}

-- the loop: the longest run so far, and the one that the last line belongs to
abbrev pub longer : List String → List String → List String
longer current best = if ltb (length best) (length current) then current else best

unfoldable pub run_loop : List String → List String → List String → List String → List String
run_loop reference best current [] = best
run_loop reference best current (line ∷ lines) =
    let grown = current ++ line ∷ [] in
    let shared = run_loop reference (longer grown best) grown lines in
    let broken = run_loop reference best [] lines in
    if contains line reference then shared else broken

unfoldable pub longest_shared_run : List String → List String → ℕ × List String
unfolding run_loop
longest_shared_run candidate reference =
    let best = run_loop reference [] [] candidate in (length best, best)

-- how many of the first lines are shared
abbrev pub shared_prefix : List String → List String → ℕ
shared_prefix reference [] = 0
shared_prefix reference (line ∷ lines) =
    let rest = shared_prefix reference lines in if contains line reference then suc rest else 0

abbrev pub larger : ℕ → ℕ → ℕ
larger a b = if ltb a b then b else a

-- the longest shared prefix of any tail
abbrev pub longest_of_tails : List String → List String → ℕ
longest_of_tails reference [] = 0
longest_of_tails reference (line ∷ lines) =
    larger (shared_prefix reference (line ∷ lines)) (longest_of_tails reference lines)

abbrev pub AreShared : List String → List String → Type 0
AreShared reference [] = Unit
AreShared reference (line ∷ lines) = (contains line reference ≡ true) × AreShared reference lines

-- The first list stands in the second without a gap.
abbrev pub StandsIn : List String → List String → Type 0
StandsIn run whole =
    (before : List String) × (after : List String) × (whole ≡ before ++ (run ++ after))

length-append_one : (xs : List String) (line : String) → length (xs ++ line ∷ []) ≡ suc (length xs)
length-append_one [] line = refl
length-append_one (x ∷ xs) line = ap suc (length-append_one xs line)

prefix_below :
    (reference lines : List String)
    → shared_prefix reference lines ≤ longest_of_tails reference lines
prefix_below reference [] = omega arith
prefix_below reference (line ∷ lines) = ground arith

longer-length :
    (current best : List String)
    → length (longer current best) ≡ larger (length best) (length current)
longer-length current best = ground arith

longer_above : (current best : List String) → length current ≤ length (longer current best)
longer_above current best = ground arith

larger_step :
    (b c s m : ℕ)
    → s ≤ m
    → larger (larger b (suc c)) (larger (suc c + s) m)
      ≡ larger b (larger (c + suc s) (larger (suc s) m))
larger_step b c s m l = ground (arith, l)

run_loop-length :
    (reference best current lines : List String)
    → length current ≤ length best
    → length (run_loop reference best current lines)
      ≡ larger (length best) (
          larger
            (length current + shared_prefix reference lines)
            (longest_of_tails reference lines))
unfolding run_loop
run_loop-length reference best current [] h = ground (arith, h)
run_loop-length reference best current (line ∷ lines) h =
    let grown = current ++ line ∷ [] in
    let prefix = shared_prefix reference lines in
    let tails = longest_of_tails reference lines in
    let below : prefix ≤ tails = prefix_below reference lines in
    elim (Bool-cases (contains line reference)) [
      | inl e ↦ rw e (
          run_loop-length reference (longer grown best) grown lines (longer_above grown best)
          ∙ (ap (λ (n : ℕ). larger n (larger (length grown + prefix) tails))
                (longer-length grown best)
              ∙ (ap (λ (n : ℕ). larger (larger (length best) n) (larger (n + prefix) tails))
                    (length-append_one current line)
                  ∙ larger_step (length best) (length current) prefix tails below)))
      | inr e ↦
          rw e (ground (arith, run_loop-length reference best [] lines (omega arith), below, h))
    ]

AreShared-append :
    (reference xs : List String) (line : String)
    → AreShared reference xs
    → contains line reference ≡ true
    → AreShared reference (xs ++ line ∷ [])
AreShared-append reference [] line h e = (e, tt)
AreShared-append reference (x ∷ xs) line (g, h) e = (g, AreShared-append reference xs line h e)

-- a run of the candidate that is shared
abbrev pub IsRun : List String → List String → List String → Type 0
IsRun reference whole run = AreShared reference run × StandsIn run whole

longer-IsRun :
    (reference whole current best : List String)
    → IsRun reference whole current
    → IsRun reference whole best
    → IsRun reference whole (longer current best)
longer-IsRun reference whole current best c b =
    elim (Bool-cases (ltb (length best) (length current))) [ inl q ↦ rw q c | inr q ↦ rw q b ]

run_loop-IsRun :
    (reference whole before best current lines : List String)
    → IsRun reference whole best
    → AreShared reference current
    → whole ≡ before ++ (current ++ lines)
    → IsRun reference whole (run_loop reference best current lines)
unfolding run_loop
run_loop-IsRun reference whole before best current [] b c w = b
run_loop-IsRun reference whole before best current (line ∷ lines) b c w =
    let grown = current ++ line ∷ [] in
    let w' : whole ≡ before ++ (grown ++ lines) =
      w ∙ ap (λ (xs : List String). before ++ xs) (sym (append_assoc current (line ∷ []) lines)) in
    elim (Bool-cases (contains line reference)) [
      | inl e ↦
          let shared = AreShared-append reference current line c e in
          rw e (
            run_loop-IsRun reference whole before (longer grown best) grown lines
              (longer-IsRun reference whole grown best (shared, (before, lines, w')) b) shared w')
      | inr e ↦ rw e (
          run_loop-IsRun reference whole (before ++ grown) best [] lines b tt
            (w' ∙ sym (append_assoc before grown lines)))
    ]

-- For any candidate and reference lines, `longest_shared_run` returns a run that stands in the
-- candidate without a gap and whose lines are all in the reference, and its length, which is
-- the longest shared prefix of any tail of the candidate.
pub longest_shared_run_lem :
    (candidate reference : List String)
    → let (n, best) = longest_shared_run candidate reference in
      (n ≡ length best)
      × (n ≡ longest_of_tails reference candidate)
      × IsRun reference candidate best
unfolding longest_shared_run
longest_shared_run_lem candidate reference = (
  refl,
  run_loop-length reference [] [] candidate (omega arith)
      ∙ ground (arith, prefix_below reference candidate),
  run_loop-IsRun reference candidate [] [] [] candidate (tt, ([], candidate, refl)) tt refl,
)

-- ===== src/Conformance/Release/Order.antt =====
-- The order of the risks that remain.
use mcp_heartbeat.Prelude.{Bool-cases, List, [], arith, false, inl, inr, true, ℕ, ◌∷◌, ◌≡◌, ◌≤◌}
use mcp_heartbeat.Conformance.Release.{Matrices, insort, sorted}
use mcp_heartbeat.Conformance.Release.Risks.{
  Risk, collect_residual_risks, risk_below, risks_of, severity_rank,
}

abbrev pub rank_of : Risk → ℕ
rank_of r = severity_rank r.severity

-- the risk is not worse than any before it
unfoldable pub NoneWorse : ℕ → List Risk → Type 0
NoneWorse n [] = Unit
NoneWorse n (r ∷ rs) = (n ≤ rank_of r) × NoneWorse n rs

unfoldable pub WorstFirst : List Risk → Type 0
WorstFirst [] = Unit
WorstFirst (r ∷ rs) = NoneWorse (rank_of r) rs × WorstFirst rs

below_rank : (a b : Risk) → risk_below a b ≡ true → rank_of a ≤ rank_of b
below_rank a b e = ground (arith, e)

not_below_rank : (a b : Risk) → risk_below a b ≡ false → rank_of b ≤ rank_of a
not_below_rank a b e = ground (arith, e)

NoneWorse-trans : (m n : ℕ) (rs : List Risk) → m ≤ n → NoneWorse n rs → NoneWorse m rs
unfolding NoneWorse
NoneWorse-trans m n [] l h = tt
NoneWorse-trans m n (r ∷ rs) l (h, t) = (omega (arith, l, h), NoneWorse-trans m n rs l t)

NoneWorse-insort :
    (n : ℕ) (r : Risk) (rs : List Risk)
    → n ≤ rank_of r
    → NoneWorse n rs
    → NoneWorse n (insort risk_below r rs)
unfolding NoneWorse insort
NoneWorse-insort n r [] l h = (l, tt)
NoneWorse-insort n r (x ∷ rs) l (h, t) = elim (Bool-cases (risk_below x r)) [
  | inl e ↦ rw e (h, NoneWorse-insort n r rs l t)
  | inr e ↦ rw e (l, (h, t))
]

insort-WorstFirst :
    (r : Risk) (rs : List Risk) → WorstFirst rs → WorstFirst (insort risk_below r rs)
unfolding WorstFirst NoneWorse insort
insort-WorstFirst r [] h = (tt, tt)
insort-WorstFirst r (x ∷ rs) (h, t) = elim (Bool-cases (risk_below x r)) [
  | inl e ↦ rw e (NoneWorse-insort (rank_of x) r rs (below_rank x r e) h, insort-WorstFirst r rs t)
  | inr e ↦
      let l = not_below_rank x r e in
      rw e ((l, NoneWorse-trans (rank_of r) (rank_of x) rs l h), (h, t))
]

sorted-WorstFirst : (rs : List Risk) → WorstFirst (sorted risk_below rs)
unfolding WorstFirst sorted
sorted-WorstFirst [] = tt
sorted-WorstFirst (r ∷ rs) = insort-WorstFirst r (sorted risk_below rs) (sorted-WorstFirst rs)

-- In the residual risks of any matrices no risk is worse than one before it: blocking ones come
-- first, then those that require a decision, then the unproven ones.
collect_residual_risks-WorstFirst :
    (matrices : Matrices) → WorstFirst (collect_residual_risks matrices)
collect_residual_risks-WorstFirst matrices = sorted-WorstFirst (risks_of matrices)

-- ===== src/Core/Lineage/Outcomes.antt =====
-- The outcomes of one call of `admit`, src/mcp_heartbeat/lineage.py.
use mcp_heartbeat.Prelude.{
  Option, ap, arith, false, none, ok, raise, refl, some, true, ℕ, ◌>>=◌, ◌∙◌, ◌≡◌,
}
use mcp_heartbeat.Json.{Json}
use mcp_heartbeat.Platform.{Instant, Platform}
use mcp_heartbeat.Core.Errors.{Raises, ViolationCode}
use mcp_heartbeat.Core.Lineage.{
  Admission, LineageState, accepted, admit, admit_candidate, admitted, after_reason, hold, refusal,
}
use mcp_heartbeat.Core.Model.{Heartbeat}
use mcp_heartbeat.Core.Parse.{from_dict}
use mcp_heartbeat.Core.Validation.{document_reason}
use mcp_heartbeat.Core.Lineage.Rules.{
  Supersedes, admit_candidate_complete, admit_candidate_sound, admit_candidate_acceptance,
  admit_candidate_refusal,
}

-- The heartbeat that a candidate was parsed to is the one that would be held.
held_of :
    (p : Platform) (s : LineageState) (g h : Heartbeat) (now : Instant) (k : ℕ)
    → admit_candidate p s g now k ≡ ok (admitted (hold s h))
    → g ≡ h
unfolding admit_candidate
held_of p s g h now k e = ground arith

-- A call that returns has refused the document, or has run the checks on the parsed heartbeat.
pub data Outcome (p : Platform) (s : LineageState) (document : Json) (now : Instant) (k : ℕ)
    (a : Admission) : Type 0 where
  bad :
      (c : ViolationCode)
      → document_reason p document ≡ ok (some c)
      → a ≡ refusal s c
      → Outcome p s document now k a
  checked :
      (h : Heartbeat)
      → document_reason p document ≡ ok none
      → from_dict p document ≡ ok h
      → admit_candidate p s h now k ≡ ok a
      → Outcome p s document now k a

module _ (p : Platform) (s : LineageState) (document : Json) (now : Instant) (k : ℕ) where
  Outcome-of_reason :
      (a : Admission) (r : Raises (Option ViolationCode)) (f : Raises Heartbeat)
      → document_reason p document ≡ r
      → from_dict p document ≡ f
      → (r >>= after_reason p s document now k) ≡ ok a
      → Outcome p s document now k a
  Outcome-of_reason a (raise x) f er ef e = cc
  Outcome-of_reason a (ok (some c)) f er ef e = bad c er (cc)
  Outcome-of_reason a (ok none) (raise x) er ef e =
      cc (ap (λ (f : Raises Heartbeat). f >>= λ h. admit_candidate p s h now k) ef, e)
  Outcome-of_reason a (ok none) (ok h) er ef e =
      checked h er ef
        (cc (ap (λ (f : Raises Heartbeat). f >>= λ h. admit_candidate p s h now k) ef, e))

  pub admit-Outcome :
      (a : Admission) → admit p s document now k ≡ ok a → Outcome p s document now k a
  unfolding admit
  admit-Outcome a e =
      Outcome-of_reason a (document_reason p document) (from_dict p document) refl refl e

  -- When `admit` returns an acceptance that holds `h`, the document had no reason to be
  -- refused, was parsed to `h`, and `h` names the participant, opens an epoch that was never
  -- seen or goes on in the held one with a higher sequence, was issued within the skew of now
  -- on either side and has not expired.
  pub admitted_sound :
      (h : Heartbeat)
      → admit p s document now k ≡ ok (admitted (hold s h))
      → (document_reason p document ≡ ok none)
        × (from_dict p document ≡ ok h)
        × Supersedes s h now k
  admitted_sound h e = elim (admit-Outcome (admitted (hold s h)) e) [
    | bad c r x ↦ cc
    | checked g r f x ↦ (
      r,
      f ∙ ap ok (held_of p s g h now k x),
      admit_candidate_sound p s h now k (cc (x, held_of p s g h now k x)),
    )
  ]

  -- When a document has no reason to be refused, is parsed to `h`, and `h` names the
  -- participant, opens a new epoch or goes on in the held one with a higher sequence, is
  -- within the skew and has not expired, `admit` accepts it and holds `h`.
  pub admitted_complete :
      (h : Heartbeat)
      → document_reason p document ≡ ok none
      → from_dict p document ≡ ok h
      → Supersedes s h now k
      → admit p s document now k ≡ ok (admitted (hold s h))
  unfolding admit
  admitted_complete h r f v = rw (r, f) (admit_candidate_complete p s h now k v)

  -- When `admit` returns an outcome that is not accepted, a duplicate included, the state of
  -- the outcome is the state before.
  pub admit-state_of_refusal :
      (a : Admission) → admit p s document now k ≡ ok a → accepted a ≡ false → a.state ≡ s
  unfolding accepted
  admit-state_of_refusal a e r = elim (admit-Outcome a e) [
    | bad c q x ↦ ap (λ (a : Admission). a.state) x
    | checked h q f x ↦ admit_candidate_refusal p s h now k a x r
  ]

  -- An accepted outcome holds a heartbeat that supersedes what was held.
  pub accepted-holds :
      (a : Admission)
      → admit p s document now k ≡ ok a
      → accepted a ≡ true
      → (h : Heartbeat) × (a ≡ admitted (hold s h)) × Supersedes s h now k
  unfolding accepted
  accepted-holds a e y = elim (admit-Outcome a e) [
    | bad c q x ↦ ground (arith, x)
    | checked h q f x ↦
        let held = admit_candidate_acceptance p s h now k a x y in
        (h, held, admit_candidate_sound p s h now k (x ∙ ap ok held))
  ]

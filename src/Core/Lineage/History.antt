-- ===== src/Core/Lineage/History.antt =====
-- Sequences of calls of `admit`, whatever documents arrive and in what order.
use mathlib.Core.Option.{some-injective}
use mathlib.Core.Path.{subst}
use mcp_heartbeat.Prelude.{
  Bool-cases, Option, OptionalText, ap, arith, inl, inr, member, member-insert, none, ok, refl,
  same_refl, some, sym, true, ℕ, ◌∙◌, ◌≡◌, ◌≢◌, ◌⊎◌,
}
use mcp_heartbeat.Json.{Json}
use mcp_heartbeat.Platform.{Instant, Platform}
use mcp_heartbeat.Core.Lineage.{Admission, LineageState, accepted, admit, admitted, hold}
use mcp_heartbeat.Core.Model.{Heartbeat}
use mcp_heartbeat.Prelude.Int.{ℤ}
use mcp_heartbeat.Core.Lineage.Outcomes.{admit-Outcome, admit-state_of_refusal, bad, checked}
use mcp_heartbeat.Core.Lineage.Rules.{
  Below, Follows, Supersedes, admit_candidate_sound, admit_candidate_acceptance,
}

-- One call whose outcome the consumer takes over.
pub data Step (p : Platform) (k : ℕ) (s : LineageState) (t : LineageState) : Type 0 where
  step :
      (document : Json) (now : Instant) (a : Admission)
      → admit p s document now k ≡ ok a
      → t ≡ a.state
      → Step p k s t

pub data Reach (p : Platform) (k : ℕ) (s : LineageState) : LineageState → Type 0 where
  here : Reach p k s s
  next : {t u : LineageState} → Reach p k s t → Step p k t u → Reach p k s u

-- What is held was retired when it was accepted, and speaks for the participant.
abbrev pub HeldIsRetired : LineageState → Option Heartbeat → Type 0
HeldIsRetired s none = Unit
HeldIsRetired s (some h) =
    (member h.boot_id s.retired_epochs ≡ true) × (h.node_id ≡ some s.participant_id)

abbrev pub IsConsistent : LineageState → Type 0
IsConsistent s = HeldIsRetired s s.held

-- What a later state keeps of a held heartbeat `o`: it, a later one of its epoch, or another epoch.
abbrev pub Since : LineageState → Heartbeat → Option Heartbeat → Type 0
Since t o none = ⊥
Since t o (some h) =
    (h ≡ o)
    ⊎ ((h.boot_id ≡ o.boot_id) × Below o.sequence h.sequence)
    ⊎ ((h.boot_id ≢ o.boot_id) × (member o.boot_id t.retired_epochs ≡ true))

abbrev pub epoch_of : Option Heartbeat → Option OptionalText
epoch_of none = none
epoch_of (some h) = some h.boot_id

Below-trans : (a b c : Option ℤ) → Below a b → Below b c → Below a c
Below-trans (some a) (some b) (some c) h g = omega arith
Below-trans none b c h g = absurd h
Below-trans (some a) none c h g = absurd h
Below-trans (some a) (some b) none h g = absurd g

module _ (p : Platform) (k : ℕ) where
  -- A step changes nothing, or holds a heartbeat that supersedes.
  pub Step-cases :
      {s t : LineageState}
      → Step p k s t
      → (t ≡ s) ⊎ ((h : Heartbeat) × (now : Instant) × (t ≡ hold s h) × Supersedes s h now k)
  unfolding accepted
  Step-cases {s} {t} (step document now a e q) = elim (Bool-cases (accepted a)) [
    | inl yes_ ↦ elim (admit-Outcome p s document now k a e) [
      | bad c r x ↦ inl (q ∙ ap (λ (a : Admission). a.state) x)
      | checked h r f x ↦
          let same_state : a ≡ admitted (hold s h) =
            admit_candidate_acceptance p s h now k a x yes_ in
          inr (
            h,
            now,
            q ∙ ap (λ (a : Admission). a.state) same_state,
            admit_candidate_sound p s h now k (x ∙ ap ok same_state),
          )
    ]
    | inr refused ↦ inl (q ∙ admit-state_of_refusal p s document now k a e refused)
  ]

  hold-IsConsistent :
      {s : LineageState} {h : Heartbeat} {now : Instant}
      → Supersedes s h now k
      → IsConsistent (hold s h)
  hold-IsConsistent {s} {h} v =
      (member-insert h.boot_id h.boot_id s.retired_epochs ∙ rw same_refl, v.participant)

  Step-IsConsistent : {s t : LineageState} → Step p k s t → IsConsistent s → IsConsistent t
  Step-IsConsistent st c = elim (Step-cases st) [
    | inl q ↦ rw q c
    | inr (h, now, q, v) ↦ rw q (hold-IsConsistent v)
  ]

  -- From a consistent state, over any sequence of calls of `admit`, every state is
  -- consistent: what is held, if anything, names the participant and its epoch is retired.
  pub Reach-IsConsistent : {s t : LineageState} → Reach p k s t → IsConsistent s → IsConsistent t
  Reach-IsConsistent here c = c
  Reach-IsConsistent (next r st) c = Step-IsConsistent st (Reach-IsConsistent r c)

  Step-retired :
      (e : OptionalText) {s t : LineageState}
      → Step p k s t
      → member e s.retired_epochs ≡ true
      → member e t.retired_epochs ≡ true
  Step-retired e {s} st m = elim (Step-cases st) [
    | inl q ↦ rw q m
    | inr (h, now, q, v) ↦ rw q (ground (arith, member-insert e h.boot_id s.retired_epochs))
  ]

  -- The epoch was seen, and is not the one that is held.
  abbrev pub IsGone : OptionalText → LineageState → Type 0
  IsGone e s = (member e s.retired_epochs ≡ true) × (epoch_of s.held ≢ some e)

  not_reheld :
      (e : OptionalText) (s : LineageState) (h : Heartbeat) (held : Option Heartbeat)
      → Follows s h held
      → member e s.retired_epochs ≡ true
      → epoch_of held ≢ some e
      → h.boot_id ≢ e
  not_reheld e s h none f m n q = cc (f, m, ap (λ (e : OptionalText). member e s.retired_epochs) q)
  not_reheld e s h (some o) (inl (d, f)) m n q =
      cc (f, m, ap (λ (e : OptionalText). member e s.retired_epochs) q)
  not_reheld e s h (some o) (inr (d, b)) m n q = n (ap some (sym d ∙ q))

  Step-IsGone : (e : OptionalText) {s t : LineageState} → Step p k s t → IsGone e s → IsGone e t
  Step-IsGone e {s} st g = elim (Step-cases st) [
    | inl q ↦ rw q g
    | inr (h, now, q, v) ↦ rw q (
      ground (arith, g.0, member-insert e h.boot_id s.retired_epochs),
      λ x. not_reheld e s h s.held v.lineage g.0 g.1 (some-injective _ _ x),
    )
  ]

  -- Over any sequence of calls of `admit`, whatever the documents and the instants: an epoch
  -- that is retired and not held in a state is retired and not held in every state reached
  -- from it.
  pub Reach-IsGone :
      (e : OptionalText) {s t : LineageState} → Reach p k s t → IsGone e s → IsGone e t
  Reach-IsGone e here g = g
  Reach-IsGone e (next r st) g = Step-IsGone e st (Reach-IsGone e r g)

  Since-step :
      (o h g : Heartbeat) (t : LineageState)
      → member o.boot_id t.retired_epochs ≡ true
      → Since t o (some g)
      → Follows t h (some g)
      → Since (hold t h) o (some h)
  Since-step o h g t m i (inl (d, f)) = inr (
      inr (
        λ q. cc (f, m, ap (λ (e : OptionalText). member e t.retired_epochs) q),
        ground (arith, m, member-insert o.boot_id h.boot_id t.retired_epochs),
      ))
  Since-step o h g t m (inl q) (inr (d, b)) = inr (
      inl (
        d ∙ ap (λ (h : Heartbeat). h.boot_id) q,
        subst (λ (h' : Heartbeat). Below h'.sequence h.sequence) q b,
      ))
  Since-step o h g t m (inr (inl (d', b'))) (inr (d, b)) =
      inr (inl (d ∙ d', Below-trans o.sequence g.sequence h.sequence b' b))
  Since-step o h g t m (inr (inr (d', f))) (inr (d, b)) = inr (
      inr (
        λ q. d' (sym d ∙ q),
        ground (arith, m, member-insert o.boot_id h.boot_id t.retired_epochs),
      ))

  -- what `Since` needs of the state in between
  IsSince : Heartbeat → LineageState → Type 0
  IsSince o t = (member o.boot_id t.retired_epochs ≡ true) × Since t o t.held

  Step-hold :
      (o h : Heartbeat) (t : LineageState) (held : Option Heartbeat)
      → member o.boot_id t.retired_epochs ≡ true
      → Since t o held
      → Follows t h held
      → Since (hold t h) o (some h)
  Step-hold o h t none m i f = absurd i
  Step-hold o h t (some g) m i f = Since-step o h g t m i f

  Step-IsSince : (o : Heartbeat) {s t : LineageState} → Step p k s t → IsSince o s → IsSince o t
  unfolding IsSince
  Step-IsSince o {s} st i = elim (Step-cases st) [
    | inl q ↦ rw q i
    | inr (h, now, q, v) ↦
        (Step-retired o.boot_id st i.0, rw q (Step-hold o h s s.held i.0 i.1 v.lineage))
  ]

  Reach-IsSince : (o : Heartbeat) {s t : LineageState} → Reach p k s t → IsSince o s → IsSince o t
  Reach-IsSince o here i = i
  Reach-IsSince o (next r st) i = Step-IsSince o st (Reach-IsSince o r i)

  -- From a state that is consistent and holds `o`, over any sequence of calls of `admit`: a
  -- heartbeat is held afterwards, and it is `o`, or is of the epoch of `o` with a higher
  -- sequence, or is of another epoch with the epoch of `o` retired.
  pub Reach-Since :
      (o : Heartbeat) {s t : LineageState}
      → Reach p k s t
      → IsConsistent s
      → s.held ≡ some o
      → Since t o t.held
  unfolding IsSince
  Reach-Since o {s} r c e = (Reach-IsSince o r ((subst (HeldIsRetired s) e c).0, rw e (inl refl))).1

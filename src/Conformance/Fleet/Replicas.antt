-- ===== src/Conformance/Fleet/Replicas.antt =====
-- What the replicas of a pool have issued, and that it stays issued as the pool changes.
use mathlib.Core.Option.{some-injective}
use mathlib.Core.Path.{subst}
use mcp_heartbeat.Prelude.{
  List, Option, Option-cases, OptionalText, Result, Result-cases, String, [], ap, arith, get_elem?,
  inl, inr, none, ok, raise, refl, set, some, suc, sym, zero, ℕ, ◌++◌, ◌+◌, ◌<◌, ◌∙◌, ◌∷◌, ◌≡◌, ◌≤◌,
  ◌⊎◌,
}
use mcp_heartbeat.Json.{end, int, obj, optional_text, str}
use mcp_heartbeat.Platform.{Instant, Platform}
use mcp_heartbeat.Conformance.Fleet.{
  Replica, beat_replica, beaten, fleet_participant, issued_replica, new_replica, or_keep, started,
}
use mcp_heartbeat.Core.Errors.{Raises}
use mcp_heartbeat.Core.Model.{Heartbeat, optional_int, to_dict}
use mcp_heartbeat.Core.Parse.{from_dict}
use mcp_heartbeat.Core.Producer.{FakeClock, Issuer, issue, new_issuer}
use mcp_heartbeat.Prelude.Int.{pos, ℤ}
use mcp_heartbeat.Core.Parse.Agreement.{from_dict_sound}

-- a heartbeat of the fleet's participant that this replica issued
abbrev pub IsOf : Heartbeat → Replica → Type 0
IsOf h r =
    (h.node_id ≡ some fleet_participant)
    × (h.boot_id ≡ some r.issuer.epoch_id)
    × ((n : ℕ) × (h.sequence ≡ some (pos n)) × (n < r.issuer.next_sequence))

abbrev pub FromPool : Heartbeat → List Replica → Type 0
FromPool h [] = ⊥
FromPool h (r ∷ rs) = IsOf h r ⊎ FromPool h rs

abbrev pub HeldFrom : Option Heartbeat → List Replica → Type 0
HeldFrom none rs = Unit
HeldFrom (some h) rs = FromPool h rs

abbrev pub IsLive : Replica → Type 0
IsLive r = (r.issuer.participant_id ≡ fleet_participant) × IsOf r.current r

abbrev pub AllLive : List Replica → Type 0
AllLive [] = Unit
AllLive (r ∷ rs) = IsLive r × AllLive rs

-- one replica issues what another has issued, and goes on
abbrev GoesOn : Replica → Replica → Type 0
GoesOn r s =
    (s.issuer.epoch_id ≡ r.issuer.epoch_id) × (r.issuer.next_sequence ≤ s.issuer.next_sequence)

abbrev IsIssue : Issuer → Heartbeat × Issuer → Type 0
IsIssue i (h, after) =
    (h.node_id ≡ some i.participant_id)
    × (h.boot_id ≡ some i.epoch_id)
    × (h.sequence ≡ some (pos i.next_sequence))
    × (after ≡ record i { next_sequence = i.next_sequence + 1 })

issue-IsIssue :
    (i : Issuer) (now : Instant) (r : Heartbeat × Issuer) → issue i now ≡ ok r → IsIssue i r
unfolding issue
issue-IsIssue i now (h, after) e = ground arith

replica_of_issue-IsLive :
    (epoch : String) (i : Issuer) (r : Heartbeat × Issuer)
    → i.participant_id ≡ fleet_participant
    → IsIssue i r
    → IsLive (issued_replica epoch r)
replica_of_issue-IsLive epoch i (h, after) q (n, b, s, a) =
    rw a (q, (n ∙ ap some q, b, (i.next_sequence, s, omega arith)))

IsOf-GoesOn : (h : Heartbeat) (r s : Replica) → GoesOn r s → IsOf h r → IsOf h s
IsOf-GoesOn h r s g (n, b, (k, q, l)) = (n, b ∙ ap some (sym g.0), (k, q, omega arith))

ok_injective : {E A : Type 0} (a b : A) → ◌≡◌ {A = Result E A} (ok a) (ok b) → a ≡ b
ok_injective a b e = cc

pub new_replica-IsLive :
    (epoch drawn : String) (lease : ℤ) (clock : FakeClock) (r : Replica)
    → new_replica epoch drawn lease clock ≡ ok r
    → IsLive r
unfolding new_replica new_issuer
new_replica-IsLive epoch drawn lease clock r e =
    let i = new_issuer fleet_participant (some epoch) drawn lease end in
    elim (Result-cases (issue i clock.wall)) [
      | inl (s, q) ↦
          subst IsLive (ok_injective _ _ (rw q at e))
            (replica_of_issue-IsLive epoch i s refl (issue-IsIssue i clock.wall s q))
      | inr (x, q) ↦ cc
    ]

pub beat_replica_lem :
    (r s : Replica) (clock : FakeClock)
    → IsLive r
    → beat_replica r clock ≡ ok s
    → IsLive s × GoesOn r s
unfolding beat_replica
beat_replica_lem r s clock l e = elim (Result-cases (issue r.issuer clock.wall)) [
  | inl (t, q) ↦
      let i = issue-IsIssue r.issuer clock.wall t q in
      subst (λ (s : Replica). IsLive s × GoesOn r s) (ok_injective _ _ (rw q at e))
        (replica_of_issue-IsLive r.epoch_id r.issuer t l.0 i, rw i.3 (refl, omega arith))
  | inr (x, q) ↦ cc
]

-- what is parsed from the document of a heartbeat has its names and its sequence
pub parsed-IsOf :
    (p : Platform) (g h : Heartbeat) (r : Replica)
    → from_dict p (obj (to_dict p g)) ≡ ok h
    → IsOf g r
    → IsOf h r
unfolding to_dict
parsed-IsOf p g h r e (n, b, (k, q, l)) =
    let d = from_dict_sound p (to_dict p g) h e in
    (
      same_text h.node_id fleet_participant (sym d.node_member ∙ ap optional_text n),
      same_text h.boot_id r.issuer.epoch_id (sym d.boot_member ∙ ap optional_text b),
      (k, same_int h.sequence (pos k) (sym d.sequence_member ∙ ap optional_int q), l),
    )
  where
    same_text : (o : OptionalText) (s : String) → optional_text o ≡ str s → o ≡ some s
    same_text none s e = cc
    same_text (some t) s e = cc

    same_int : (o : Option ℤ) (z : ℤ) → optional_int o ≡ int z → o ≡ some z
    same_int none z e = cc
    same_int (some y) z e = cc

FromPool-append :
    (h : Heartbeat) (rs : List Replica) (r : Replica) → FromPool h rs → FromPool h (rs ++ r ∷ [])
FromPool-append h (s ∷ rs) r (inl o) = inl o
FromPool-append h (s ∷ rs) r (inr f) = inr (FromPool-append h rs r f)
FromPool-append h [] r f = absurd f

AllLive-append : (rs : List Replica) (r : Replica) → AllLive rs → IsLive r → AllLive (rs ++ r ∷ [])
AllLive-append [] r l i = (i, tt)
AllLive-append (s ∷ rs) r l i = (l.0, AllLive-append rs r l.1 i)

-- what a lookup in the pool finds
abbrev pub Found : (Replica → Type 0) → Option Replica → Type 0
Found P none = Unit
Found P (some r) = P r

pub AllLive-get_elem? : (rs : List Replica) (i : ℕ) → AllLive rs → Found IsLive (get_elem? rs i)
AllLive-get_elem? [] i l = tt
AllLive-get_elem? (r ∷ rs) zero l = l.0
AllLive-get_elem? (r ∷ rs) (suc i) l = AllLive-get_elem? rs i l.1

pub FromPool-get_elem? :
    (h : Heartbeat) (rs : List Replica) (i : ℕ) (r : Replica)
    → get_elem? rs i ≡ some r
    → IsOf h r
    → FromPool h rs
FromPool-get_elem? h [] i r e o = cc
FromPool-get_elem? h (s ∷ rs) zero r e o = inl (subst (IsOf h) (sym (some-injective _ _ e)) o)
FromPool-get_elem? h (s ∷ rs) (suc i) r e o = inr (FromPool-get_elem? h rs i r e o)

AllLive-set :
    (rs : List Replica) (i : ℕ) (s : Replica) → AllLive rs → IsLive s → AllLive (set rs i s)
AllLive-set [] i s l v = tt
AllLive-set (r ∷ rs) zero s l v = (v, l.1)
AllLive-set (r ∷ rs) (suc i) s l v = (l.0, AllLive-set rs i s l.1 v)

FromPool-set :
    (h : Heartbeat) (rs : List Replica) (i : ℕ) (r s : Replica)
    → get_elem? rs i ≡ some r
    → GoesOn r s
    → FromPool h rs
    → FromPool h (set rs i s)
FromPool-set h [] i r s e g f = absurd f
FromPool-set h (q ∷ rs) zero r s e g (inl o) =
    inl (IsOf-GoesOn h q s (subst (λ (x : Replica). GoesOn x s) (sym (some-injective _ _ e)) g) o)
FromPool-set h (q ∷ rs) zero r s e g (inr f) = inr f
FromPool-set h (q ∷ rs) (suc i) r s e g (inl o) = inl o
FromPool-set h (q ∷ rs) (suc i) r s e g (inr f) = inr (FromPool-set h rs i r s e g f)

-- a step of the pool keeps what its replicas have issued
pub record Grows (rs ss : List Replica) : Type 0 where
  pub live : AllLive ss
  pub keeps : (h : Heartbeat) → FromPool h rs → FromPool h ss

pub started-Grows :
    (rs : List Replica) (r : Raises Replica)
    → ((s : Replica) → r ≡ ok s → IsLive s)
    → AllLive rs
    → Grows rs (started rs r)
started-Grows rs (ok s) v l = record {
  live = AllLive-append rs s l (v s refl);
  keeps = λ h f. FromPool-append h rs s f;
}
started-Grows rs (raise e) v l = record { live = l; keeps = λ h f. f }

set_beaten-Grows :
    (rs : List Replica) (i : ℕ) (r : Replica) (b : Raises Replica)
    → get_elem? rs i ≡ some r
    → ((s : Replica) → b ≡ ok s → IsLive s × GoesOn r s)
    → IsLive r
    → AllLive rs
    → Grows rs (set rs i (or_keep b r))
set_beaten-Grows rs i r (ok s) e v m l = record {
  live = AllLive-set rs i s l (v s refl).0;
  keeps = λ h f. FromPool-set h rs i r s e (v s refl).1 f;
}
set_beaten-Grows rs i r (raise x) e v m l = record {
  live = AllLive-set rs i r l m;
  keeps = λ h f. FromPool-set h rs i r r e (refl, omega arith) f;
}

pub beaten-Grows :
    (clock : FakeClock) (rs : List Replica) (i : ℕ)
    → AllLive rs
    → Grows rs (beaten clock rs i (get_elem? rs i))
beaten-Grows clock rs i l = elim (Option-cases (get_elem? rs i)) [
  | inl e ↦ rw e (record { live = l; keeps = λ h f. f })
  | inr (r, e) ↦
      let m = subst (Found IsLive) e (AllLive-get_elem? rs i l) in
      rw e (
        set_beaten-Grows rs i r (beat_replica r clock) e (λ s q. beat_replica_lem r s clock m q) m
          l)
]

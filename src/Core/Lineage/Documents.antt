-- ===== src/Core/Lineage/Documents.antt =====
-- Redelivery, time and bounds of the documents that reach `admit`.
use mcp_heartbeat.Prelude.{
  Bool, Option, Result-cases, arith, eq_refl, false, inl, inr, none, ok, refl, same_refl, some,
  true, ℕ, ◌+◌, ◌<◌, ◌>>=◌, ◌≡◌, ◌≤◌,
}
use mcp_heartbeat.Json.{Fields, Json, null, obj}
use mcp_heartbeat.Platform.{Instant, Platform}
use mcp_heartbeat.Core.Errors.{Raises, ViolationCode}
use mcp_heartbeat.Core.Lineage.{
  Admission, LineageState, admit, admit_candidate, admitted, check_freshness, hold, is_duplicate,
  redelivery, refusal, same_digest, same_int,
}
use mcp_heartbeat.Core.Model.{Heartbeat, digest}
use mcp_heartbeat.Core.Parse.{from_dict}
use mcp_heartbeat.Core.Validation.{max_lease}
use mcp_heartbeat.Prelude.Int.{ℤ}
use mcp_heartbeat.Core.Lineage.Outcomes.{admit-Outcome, admitted_sound, bad, checked}
use mcp_heartbeat.Core.Parse.Agreement.{from_dict_sound}
use mcp_heartbeat.Core.Parse.Contract.{Describes}

-- The reasons that depend on the time of arrival.
abbrev pub is_liveness : ViolationCode → Bool
is_liveness ViolationCode.clock_skew_exceeded = true
is_liveness ViolationCode.expired_on_arrival = true
is_liveness _ = false

same_int_refl : (a : Option ℤ) → same_int a a ≡ true
same_int_refl none = refl
same_int_refl (some a) = ground arith

module _ (p : Platform) where
  -- a duplicate, or what its digest raises
  abbrev pub redelivered : LineageState → Heartbeat → Raises Admission
  redelivered s h = digest p h >>= λ d. ok (redelivery s)

  same_document :
      (s : LineageState) (h : Heartbeat) (now : Instant) (k : ℕ)
      → h.node_id ≡ some s.participant_id
      → admit_candidate p (hold s h) h now k ≡ redelivered (hold s h) h
  unfolding admit_candidate is_duplicate same_digest
  same_document s h now k e = elim (Result-cases (digest p h)) [
    | inl (d, q) ↦ rw q (simp (e, eq_refl, same_refl, same_int_refl))
    | inr (x, q) ↦ rw q (simp (e, eq_refl, same_refl, same_int_refl))
  ]

  -- When `admit` accepted a document and holds `h`, `admit` of the same document on the state
  -- that resulted, at any instant and with any skew, is a duplicate that leaves the state as
  -- it is, or, where `h` cannot be encoded in UTF-8, raises what the digest of `h` raises.
  pub admit-redelivery :
      (s : LineageState) (document : Json) (now now' : Instant) (k k' : ℕ) (h : Heartbeat)
      → admit p s document now k ≡ ok (admitted (hold s h))
      → admit p (hold s h) document now' k' ≡ redelivered (hold s h) h
  unfolding admit
  admit-redelivery s document now now' k k' h e =
      let (r, f, v) = admitted_sound p s document now k h e in
      rw (r, f) (same_document s h now' k' v.participant)

  candidate_any_time :
      (s : LineageState) (h : Heartbeat) (now now' : Instant) (k k' : ℕ) (c : ViolationCode)
      → admit_candidate p s h now k ≡ ok (refusal s c)
      → is_liveness c ≡ false
      → admit_candidate p s h now' k' ≡ ok (refusal s c)
  unfolding admit_candidate check_freshness
  candidate_any_time s h now now' k k' c e l = ground arith

  -- When `admit` refuses a document for a reason other than clock skew and expiry, it refuses
  -- it for that reason at every instant and with every skew.
  admit_any_time :
      (s : LineageState) (document : Json) (now now' : Instant) (k k' : ℕ) (c : ViolationCode)
      → admit p s document now k ≡ ok (refusal s c)
      → is_liveness c ≡ false
      → admit p s document now' k' ≡ ok (refusal s c)
  unfolding admit
  admit_any_time s document now now' k k' c e l =
      elim (admit-Outcome p s document now k (refusal s c) e) [
        | bad b r x ↦ rw r (cc x)
        | checked h r f x ↦ rw (r, f) (candidate_any_time s h now now' k k' c x l)
      ]

  described :
      (document : Json) (h : Heartbeat)
      → from_dict p document ≡ ok h
      → (raw : Fields) × (document ≡ obj raw) × Describes p raw h
  described (obj raw) h e = (raw, refl, from_dict_sound p raw h e)
  described null h e = unfold from_dict in cc
  described _ h e = unfold from_dict in cc

  admitted_bounds :
      (s : LineageState) (document : Json) (now : Instant) (k : ℕ) (h : Heartbeat)
      → admit p s document now k ≡ ok (admitted (hold s h))
      → (now < h.expires_at)
        × (h.expires_at ≤ now + k + max_lease)
        × (h.issued_at < h.expires_at)
        × (h.issued_at ≤ now + k)
        × (now ≤ h.issued_at + k)
  admitted_bounds s document now k h e =
      let (r, f, v) = admitted_sound p s document now k h e in
      let (raw, q, d) = described document h f in
      omega (arith, v.fresh, v.not_ahead, v.not_behind, d.window_open, d.window_bound)

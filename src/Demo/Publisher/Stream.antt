-- ===== src/Demo/Publisher/Stream.antt =====
-- The documents of a participant, one after the other.
use mcp_heartbeat.Prelude.{
  Bool-cases, List, String, [], ap, arith, false, inl, inr, not, ok, raise, refl, some, sym, true,
  ℕ, ◌&&◌, ◌+◌, ◌==◌, ◌∙◌, ◌∷◌, ◌≡◌, ◌⊎◌,
}
use mcp_heartbeat.Json.{Fields, Json, end, field, obj, str}
use mcp_heartbeat.Platform.{Instant, Platform}
use mcp_heartbeat.Core.Errors.{Raises}
use mcp_heartbeat.Core.Model.{Heartbeat, extension_version, to_dict}
use mcp_heartbeat.Core.Producer.{Issuer, add_delta, issue, new_issuer}
use mcp_heartbeat.Demo.Publisher.{
  Participant, control, issued_by, new_participant, no_fields, participant_heartbeat,
  status_extension,
}
use mcp_heartbeat.Prelude.Int.{pos, ℤ}
use mcp_heartbeat.Core.Lineage.Rules.{Below}

pub data ParticipantCall : Type 0 where
  beating : Instant → ParticipantCall
  controlling : String → Json → String → ParticipantCall

-- The last document is of the issuer's epoch, one behind its counter.
abbrev pub LastIsIssued : Platform → Participant → Type 0
LastIsIssued p d =
    (d.issuer.participant_id ≡ d.participant_id)
    × ((d.last ≡ end)
        ⊎ ((g : Heartbeat) × (d.last ≡ to_dict p g)
            × (g.boot_id ≡ some d.issuer.epoch_id)
            × ((n : ℕ) × (g.sequence ≡ some (pos n)) × (d.issuer.next_sequence ≡ n + 1))))

-- The heartbeat goes on after the last document, or is the first one of its epoch.
abbrev pub GoesOn : Platform → Fields → Heartbeat → Type 0
GoesOn p last h =
    (last ≡ end)
    ⊎ ((g : Heartbeat) × (last ≡ to_dict p g)
        × (g.boot_id ≡ h.boot_id)
        × Below g.sequence h.sequence)

-- what a call of `heartbeat` answered
abbrev pub Answers : Platform → Participant → Instant → Fields → Participant → Type 0
Answers p d now document d' =
    ((d.frozen ≡ true) × (document ≡ d.last) × (d' ≡ d))
    ⊎ ((h : Heartbeat) × (document ≡ to_dict p h)
        × (h.node_id ≡ some d.participant_id)
        × (h.boot_id ≡ some d.issuer.epoch_id)
        × (h.issued_at ≡ now)
        × GoesOn p d.last h
        × (d'.last ≡ document))

module _ (p : Platform) where
  -- the issuer with the status of the participant
  abbrev told : Participant → Issuer
  told d = record d.issuer {
    extensions = field status_extension (obj (field "status" (str d.status) end)) end;
  }

  abbrev minted_by : Issuer → Instant → Instant → Heartbeat
  minted_by i now expires = record {
    node_id = some i.participant_id;
    boot_id = some i.epoch_id;
    sequence = some (pos i.next_sequence);
    issued_at = now;
    expires_at = expires;
    version = extension_version;
    extensions = i.extensions;
  }

  issue_parts :
      (i : Issuer) (now : Instant) (r : Raises Instant)
      → add_delta now i.lease ≡ r
      → issue i now ≡ (elim r [
        | ok expires ↦
            ok (minted_by i now expires, record i { next_sequence = i.next_sequence + 1 })
        | raise e ↦ raise e
      ])
  unfolding issue
  issue_parts i now (ok expires) q = rw q refl
  issue_parts i now (raise e) q = rw q refl

  goes_on :
      (d : Participant) (now expires : Instant)
      → LastIsIssued p d
      → GoesOn p d.last (minted_by (told d) now expires)
  goes_on d now expires (q, inl e) = inl e
  goes_on d now expires (q, inr (g, e, b, (n, s, c))) = inr (g, e, b, rw s (omega (arith, c)))

  -- one call of `heartbeat`, for what `add_delta` comes to
  beat_keeps :
      (d : Participant) (now : Instant) (r : Raises Instant)
      → add_delta now (told d).lease ≡ r
      → LastIsIssued p d
      → LastIsIssued p (participant_heartbeat p d now).1
  unfolding participant_heartbeat
  beat_keeps d now (ok expires) q h = elim (Bool-cases (d.frozen && not (no_fields d.last))) [
    | inl e ↦ rw e h
    | inr e ↦
        rw (e, issue_parts (told d) now (ok expires) q)
          (
            h.0,
            inr (minted_by (told d) now expires, refl, refl, (d.issuer.next_sequence, refl, refl)),
          )
  ]
  beat_keeps d now (raise x) q h = elim (Bool-cases (d.frozen && not (no_fields d.last))) [
    | inl e ↦ rw e h
    | inr e ↦ rw (e, issue_parts (told d) now (raise x) q) h
  ]

  -- A call that answered `a` did not answer otherwise.
  same_document :
      (a document : Fields) (d d' : Participant)
      → ◌≡◌ {A = Raises Fields × Participant} (ok a, d) (ok document, d')
      → document ≡ a
  same_document a document d d' e = ground (arith, ap (λ (r : Raises Fields × Participant). r.0) e)

  -- what a participant answers that is not frozen, or has no document yet
  beat_afresh :
      (d : Participant) (now : Instant) (r : Raises Instant)
      → add_delta now (told d).lease ≡ r
      → (d.frozen && not (no_fields d.last)) ≡ false
      → participant_heartbeat p d now
        ≡ issued_by p d (told d) (elim r [
          | ok expires ↦ ok (
            minted_by (told d) now expires,
            record (told d) { next_sequence = d.issuer.next_sequence + 1 },
          )
          | raise e ↦ raise e
        ])
  unfolding participant_heartbeat
  beat_afresh d now r q c = rw (c, issue_parts (told d) now r q) refl

  frozen-Answers :
      (d d' : Participant) (now : Instant) (document : Fields)
      → (d.frozen && not (no_fields d.last)) ≡ true
      → participant_heartbeat p d now ≡ (ok document, d')
      → Answers p d now document d'
  unfolding participant_heartbeat
  frozen-Answers d d' now document c e =
      let kept : participant_heartbeat p d now ≡ (ok d.last, d) = rw c refl in
      let both = sym kept ∙ e in
      inl (
        ground (arith, c),
        same_document d.last document d d' both,
        sym (ap (λ (r : Raises Fields × Participant). r.1) both),
      )

  beat-Answers :
      (d d' : Participant) (now : Instant) (document : Fields) (r : Raises Instant)
      → add_delta now (told d).lease ≡ r
      → LastIsIssued p d
      → participant_heartbeat p d now ≡ (ok document, d')
      → Answers p d now document d'
  beat-Answers d d' now document (ok expires) q h e =
      let m = minted_by (told d) now expires in
      elim (Bool-cases (d.frozen && not (no_fields d.last))) [
        | inl c ↦ frozen-Answers d d' now document c e
        | inr c ↦
            let both = sym (beat_afresh d now (ok expires) q c) ∙ e in
            let same_ = same_document (to_dict p m) document _ d' both in
            inr (
              m,
              same_,
              ap some h.0,
              refl,
              refl,
              goes_on d now expires h,
              sym (ap (λ (r : Raises Fields × Participant). r.1.last) both) ∙ sym same_,
            )
      ]
  beat-Answers d d' now document (raise x) q h e =
      elim (Bool-cases (d.frozen && not (no_fields d.last))) [
        | inl c ↦ frozen-Answers d d' now document c e
        | inr c ↦ ground (
          arith,
          ap (λ (r : Raises Fields × Participant). r.0) (sym (beat_afresh d now (raise x) q c) ∙ e),
        )
      ]

  control_keeps :
      (d : Participant) (operation : String) (value : Json) (minted : String)
      → LastIsIssued p d
      → LastIsIssued p (control p d operation value minted).1
  unfolding control new_issuer
  control_keeps d operation value minted h = elim (Bool-cases (operation == "freeze")) [
    | inl e ↦ rw e h
    | inr e ↦ elim (Bool-cases (operation == "thaw")) [
      | inl f ↦ rw (e, f) h
      | inr f ↦ elim (Bool-cases (operation == "restart")) [
        | inl g ↦ rw (e, f, g) (refl, inl refl)
        | inr g ↦ elim (Bool-cases (operation == "status")) [
          | inl k ↦ rw (e, f, g, k) h
          | inr k ↦ rw (e, f, g, k) h
        ]
      ]
    ]
  ]

  unfoldable pub after_calls : Participant → List ParticipantCall → Participant
  after_calls d [] = d
  after_calls d (beating now ∷ calls) = after_calls (participant_heartbeat p d now).1 calls
  after_calls d (controlling operation value minted ∷ calls) =
      after_calls (control p d operation value minted).1 calls

  after_calls-LastIsIssued :
      (d : Participant) (calls : List ParticipantCall)
      → LastIsIssued p d
      → LastIsIssued p (after_calls d calls)
  unfolding after_calls
  after_calls-LastIsIssued d [] h = h
  after_calls-LastIsIssued d (beating now ∷ calls) h =
      after_calls-LastIsIssued (participant_heartbeat p d now).1 calls
        (beat_keeps d now (add_delta now (told d).lease) refl h)
  after_calls-LastIsIssued d (controlling operation value minted ∷ calls) h =
      after_calls-LastIsIssued (control p d operation value minted).1 calls
        (control_keeps d operation value minted h)

  -- After any list of heartbeats and control operations on a participant that was just
  -- constructed, whatever epochs its restarts draw: when `heartbeat` returns a document, the
  -- participant is frozen, the document is the last one and nothing changes; or it is the
  -- document of a heartbeat of the participant and its current epoch, issued now, with a
  -- sequence above that of the last document, which is of the same epoch if there is one.
  pub participant_heartbeat-Answers :
      (node : String) (lease : ℤ) (minted : String) (calls : List ParticipantCall) (now : Instant)
      (document : Fields) (d' : Participant)
      → let d = after_calls (new_participant node lease minted) calls in
        participant_heartbeat p d now ≡ (ok document, d') → Answers p d now document d'
  unfolding new_participant new_issuer
  participant_heartbeat-Answers node lease minted calls now document d' e =
      let first = new_participant node lease minted in
      let d = after_calls first calls in
      beat-Answers d d' now document (add_delta now (told d).lease) refl
        (after_calls-LastIsIssued first calls (refl, inl refl)) e

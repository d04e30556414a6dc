-- ===== src/Cleanroom/Interop.antt =====
-- The clean-room consumer against the core: what the one admits, the other admits.
use Prim.Native.String.{◌++◌ as append}
use mcp_heartbeat.Prelude.{
  Bool, Bool-cases, List, Option, Option-cases, OptionalText, String, [], arith, if◌then◌else◌, inl,
  inr, none, ok, or_raise, raise, refl, some, true, ◌+◌, ◌<◌, ◌==◌, ◌>>=◌, ◌∷◌, ◌≡◌, ◌≤◌,
}
use mcp_heartbeat.Json.{
  Fields, Json, arr, bool, end, field, float, get, int, null, obj, optional_text, str,
}
use mcp_heartbeat.Platform.{Instant, Moment, Platform}
use mcp_heartbeat.Text.{boot_id_re, drop_last, ends_with_z, node_id_re}
use mcp_heartbeat.Cleanroom.Participant.{covers}
use mcp_heartbeat.Cleanroom.Validation.{
  Aware, CleanViolation, aware_of, bare_extension_keys, bare_members, boot_id_pattern,
  clean_extensions, clean_identifier, clean_missing, clean_sequence, clean_timestamp, clean_version,
  clean_window, node_id_pattern, parse_timestamp, required_fields, validate,
}
use mcp_heartbeat.Core.Errors.{overflow_error, value_error}
use mcp_heartbeat.Core.Model.{Heartbeat, optional_int}
use mcp_heartbeat.Core.Time.{parse_rfc3339}
use mcp_heartbeat.Core.Validation.{max_lease, namespaced}
use mcp_heartbeat.Prelude.Int.{neg_part, pos_part, ℤ}
use mcp_heartbeat.Core.Parse.Contract.{
  AllKeys, AllPresent, AreExtensions, Describes, NonNegative, TextMatches, known_or_namespaced,
}

-- What is used of `astimezone`: it keeps the instant.
abbrev pub KeepsInstants : Platform → Type 0
KeepsInstants p =
    (m : Moment) (o : ℤ) (t : Instant)
    → m.offset ≡ some o
    → p.astimezone m ≡ some t
    → m.local + neg_part o ≡ t + pos_part o

-- An aware datetime is at an instant.
abbrev pub IsAt : Option Aware → Instant → Type 0
IsAt none t = ⊥
IsAt (some a) t = a.face + neg_part a.offset ≡ t + pos_part a.offset

clean_missing_lem :
    (names : List String) (document : Fields)
    → AllPresent names document
    → clean_missing names document ≡ []
unfolding clean_missing
clean_missing_lem [] document h = refl
clean_missing_lem (n ∷ ns) document (h, t) = rw (h, clean_missing_lem ns document t) refl

bare_extension_keys_lem : (fs : Fields) → AllKeys namespaced fs → bare_extension_keys fs ≡ []
unfolding bare_extension_keys
bare_extension_keys_lem end h = refl
bare_extension_keys_lem (field k v fs) (h, t) = rw (h, bare_extension_keys_lem fs t) refl

clean_extensions_lem : (v : Json) → AreExtensions v → clean_extensions v ≡ []
unfolding clean_extensions
clean_extensions_lem (obj fs) h = bare_extension_keys_lem fs h
clean_extensions_lem null h = refl
clean_extensions_lem (bool _) h = absurd h
clean_extensions_lem (int _) h = absurd h
clean_extensions_lem (float _) h = absurd h
clean_extensions_lem (str _) h = absurd h
clean_extensions_lem (arr _) h = absurd h

bare_members_lem : (fs : Fields) → AllKeys known_or_namespaced fs → bare_members fs ≡ []
unfolding bare_members
bare_members_lem end h = refl
bare_members_lem (field k v fs) (h, t) = ground (arith, h, bare_members_lem fs t)

clean_identifier_lem :
    (re : String → Bool) (v : CleanViolation) (o : OptionalText)
    → TextMatches re o
    → clean_identifier re v (optional_text o) ≡ []
unfolding clean_identifier
clean_identifier_lem re v none h = refl
clean_identifier_lem re v (some s) h = rw h refl

clean_sequence_lem : (o : Option ℤ) → NonNegative o → clean_sequence (optional_int o) ≡ []
unfolding clean_sequence
clean_sequence_lem o h = ground (arith, h)

clean_timestamp_lem :
    (name : String) (a : Option Aware) (t : Instant) (document : Fields)
    → IsAt a t
    → clean_timestamp name a document ≡ []
unfolding clean_timestamp
clean_timestamp_lem name (some a) t document h = refl
clean_timestamp_lem name none t document h = absurd h

clean_window_lem :
    (a b : Option Aware) (issued expires : Instant)
    → IsAt a issued
    → IsAt b expires
    → issued < expires
    → expires ≤ issued + max_lease
    → clean_window a b ≡ []
unfolding clean_window
clean_window_lem none b issued expires x y l m = absurd x
clean_window_lem (some a) none issued expires x y l m = absurd y
clean_window_lem (some a) (some b) issued expires x y l m = ground (arith, x, y, l, m)

pub covers_lem :
    (b : Option Aware) (expires now : Instant)
    → IsAt b expires
    → now < expires
    → covers b now ≡ true
covers_lem none expires now y l = absurd y
covers_lem (some b) expires now y l = ground (arith, y, l)

module _ (p : Platform) (f : KeepsInstants p) where
  -- a datetime that was parsed, once it is aware and converted
  aware_of_lem :
      (m : Option Moment) (t : Instant)
      → (or_raise m value_error >>= λ (parsed : Moment). elim parsed.offset [
        | none ↦ raise value_error
        | some o ↦ or_raise (p.astimezone parsed) overflow_error
      ])
        ≡ ok t
      → IsAt (aware_of m) t
  aware_of_lem none t e = ground (arith, e)
  aware_of_lem (some m) t e = elim (Option-cases m.offset) [
    | inl q ↦ ground (arith, e, q)
    | inr (o, q) ↦ elim (Option-cases (p.astimezone m)) [
      | inl r ↦ ground (arith, e, q, r)
      | inr (u, r) ↦ ground (arith, e, q, r, f m o u q r)
    ]
  ]

  parse_timestamp_lem :
      (v : Json) (t : Instant) → parse_rfc3339 p v ≡ ok t → IsAt (parse_timestamp p v) t
  unfolding parse_rfc3339 parse_timestamp
  parse_timestamp_lem (str raw) t e =
      let candidate = if ends_with_z raw then append (drop_last raw) "+00:00" else raw in
      elim (Bool-cases (raw == "")) [
        | inl q ↦ ground (arith, e, q)
        | inr q ↦ aware_of_lem (p.fromisoformat candidate) t (ground (arith, e, q))
      ]
  parse_timestamp_lem _ t e = cc

  -- A document that satisfies the core's contract has no violation here.
  pub validate_lem :
      (raw : Fields) (h : Heartbeat)
      → Describes p raw h
      → (validate p (obj raw) ≡ []) × (IsAt (parse_timestamp p (get "expires_at" raw)) h.expires_at)
  unfolding validate parse_timestamp clean_version
  validate_lem raw h d =
      let issued = parse_timestamp_lem (get "issued_at" raw) h.issued_at d.issued_member in
      let expires = parse_timestamp_lem (get "expires_at" raw) h.expires_at d.expires_member in
      (
        simp (
          clean_missing_lem required_fields raw d.present,
          d.version_text,
          d.node_member,
          d.boot_member,
          d.sequence_member,
          clean_identifier_lem node_id_re node_id_pattern h.node_id d.node_matches,
          clean_identifier_lem boot_id_re boot_id_pattern h.boot_id d.boot_matches,
          clean_sequence_lem h.sequence d.sequence_bound,
          clean_timestamp_lem "issued_at" (parse_timestamp p (get "issued_at" raw)) h.issued_at raw
              issued,
          clean_timestamp_lem "expires_at" (parse_timestamp p (get "expires_at" raw)) h.expires_at
              raw expires,
          clean_window_lem (parse_timestamp p (get "issued_at" raw))
              (parse_timestamp p (get "expires_at" raw)) h.issued_at h.expires_at issued expires
              d.window_open d.window_bound,
          clean_extensions_lem (get "extensions" raw) d.extensions_ok,
          bare_members_lem raw d.members_ok,
        ),
        expires,
      )

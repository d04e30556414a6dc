-- ===== src/Core/Producer/Roundtrip.antt =====
-- Writing a heartbeat with `to_dict` and reading it with `from_dict`, src/mcp_heartbeat/model.py.
use Prim.Native.String.{◌++◌ as append}
use Prim.Native.Char.{Char}
use text.Mathlib.TextLemmas.{append-ne-nil_of_right_ne-nil, cons-append}
use mcp_heartbeat.Prelude.{
  String, ap, arith, eq_iff, false, ok, refl, some, true, ◌%◌, ◌+◌, ◌<◌, ◌==◌, ◌≡◌, ◌≢◌, ◌≤◌,
}
use mcp_heartbeat.Json.{Fields, end, field, get, members, obj, str}
use mcp_heartbeat.Platform.{Instant, Moment, Platform, max_instant}
use mcp_heartbeat.Text.{boot_id_re, drop_last, ends_with_z, node_id_re}
use mcp_heartbeat.Core.Model.{Heartbeat, extension_version, to_dict}
use mcp_heartbeat.Core.Parse.{from_dict}
use mcp_heartbeat.Core.Time.{format_rfc3339, parse_rfc3339}
use mcp_heartbeat.Core.Validation.{max_lease, namespaced}
use mcp_heartbeat.Prelude.Int.{pos}
use mcp_heartbeat.Core.Parse.Agreement.{from_dict_complete}
use mcp_heartbeat.Core.Parse.Contract.{
  AllKeys, AreExtensions, Describes, NonNegative, TextMatches, known_or_namespaced,
}

-- The first instant of the year 1000, from which `%Y` has four digits on every platform.
abbrev pub first_instant : Instant
first_instant = 31525372800000000

-- An instant that the wire format keeps: whole milliseconds, and a year of four digits.
pub record IsWritable (t : Instant) : Type 0 where
  pub millis : t % 1000 ≡ 0
  pub above : first_instant ≤ t
  pub below : t ≤ max_instant

abbrev pub utc_moment : Instant → Moment
utc_moment t = record { local = t; offset = some (pos 0) }

-- What is used of `strftime`, `fromisoformat` and `astimezone`: the text of an instant in UTC, cut
-- to milliseconds and with an offset of zero, reads as that instant.
pub record IsFaithful (p : Platform) : Type 0 where
  pub reads_back :
      (t : Instant)
      → IsWritable t
      → p.fromisoformat (append (drop_last (drop_last (drop_last (p.strftime t)))) "+00:00")
        ≡ some (utc_moment t)
  pub utc_stays : (t : Instant) → t ≤ max_instant → p.astimezone (utc_moment t) ≡ some t

ends_with_z-cons :
    (c : Char) (t : String) → t ≢ String.[] → ends_with_z (String.◌∷◌ c t) ≡ ends_with_z t
ends_with_z-cons c String.[] h = absurd (h refl)
ends_with_z-cons c (String.◌∷◌ d t) h = refl

drop_last-cons :
    (c : Char) (t : String)
    → t ≢ String.[]
    → drop_last (String.◌∷◌ c t) ≡ String.◌∷◌ c (drop_last t)
drop_last-cons c String.[] h = absurd (h refl)
drop_last-cons c (String.◌∷◌ d t) h = refl

append_z : (s : String) → append s "Z" ≢ String.[]
append_z s = append-ne-nil_of_right_ne-nil s (λ e. ground (arith, eq_iff "Z" "", e))

ends_with_z-append : (s : String) → ends_with_z (append s "Z") ≡ true
ends_with_z-append String.[] = refl
ends_with_z-append (String.◌∷◌ c s) =
    rw (cons-append c s "Z", ends_with_z-cons c (append s "Z") (append_z s)) (ends_with_z-append s)

drop_last-append : (s : String) → drop_last (append s "Z") ≡ s
drop_last-append String.[] = refl
drop_last-append (String.◌∷◌ c s) =
    rw (cons-append c s "Z", drop_last-cons c (append s "Z") (append_z s), drop_last-append s)

not_empty : (s : String) → (append s "Z" == "") ≡ false
not_empty s = ground (arith, eq_iff (append s "Z") "", append_z s)

module _ (p : Platform) (f : IsFaithful p) where
  pub parse-format :
      (t : Instant) → IsWritable t → parse_rfc3339 p (str (format_rfc3339 p t)) ≡ ok t
  unfolding parse_rfc3339 format_rfc3339
  parse-format t w =
      let s = drop_last (drop_last (drop_last (p.strftime t))) in
      rw (
        not_empty s,
        ends_with_z-append s,
        drop_last-append s,
        f.reads_back t w,
        f.utc_stays t w.below,
      )

  -- What a heartbeat must be like for the wire to carry it.
  pub record IsPublishable (h : Heartbeat) : Type 0 where
    pub version : h.version ≡ extension_version
    pub node : TextMatches node_id_re h.node_id
    pub boot : TextMatches boot_id_re h.boot_id
    pub sequence : NonNegative h.sequence
    pub issued : IsWritable h.issued_at
    pub expires : IsWritable h.expires_at
    pub opens : h.issued_at < h.expires_at
    pub closes : h.expires_at ≤ h.issued_at + max_lease
    pub extension_keys : AllKeys namespaced h.extensions

  extensions_read :
      (h : Heartbeat) (fs : Fields)
      → h.extensions ≡ fs
      → AllKeys namespaced fs
      → (AreExtensions (get "extensions" (to_dict p h)))
        × (h.extensions ≡ members (get "extensions" (to_dict p h)))
        × AllKeys known_or_namespaced (to_dict p h)
  unfolding to_dict
  extensions_read h end e k = rw e (tt, refl, (refl, (refl, (refl, (refl, (refl, (refl, tt)))))))
  extensions_read h (field j v fs) e k =
      rw e (k, refl, (refl, (refl, (refl, (refl, (refl, (refl, (refl, tt))))))))

  pub to_dict-Describes : (h : Heartbeat) → IsPublishable h → Describes p (to_dict p h) h
  unfolding to_dict
  to_dict-Describes h v =
      let (ok_, same_, keys_) = extensions_read h h.extensions refl v.extension_keys in
      record {
        version_text = ap str v.version;
        version_value = v.version;
        present = (refl, (refl, (refl, (refl, (refl, (refl, tt))))));
        node_member = refl;
        node_matches = v.node;
        boot_member = refl;
        boot_matches = v.boot;
        sequence_member = refl;
        sequence_bound = v.sequence;
        issued_member = parse-format h.issued_at v.issued;
        expires_member = parse-format h.expires_at v.expires;
        window_open = v.opens;
        window_bound = v.closes;
        extensions_ok = ok_;
        extensions_value = same_;
        members_ok = keys_;
      }

  -- On a platform whose `fromisoformat` and `astimezone` read back the millisecond text that
  -- `strftime` writes of an instant in UTC: a heartbeat that satisfies the contract and whose
  -- instants are whole milliseconds with a year of four digits is returned unchanged by
  -- `from_dict` of its `to_dict`.
  pub from_dict-to_dict : (h : Heartbeat) → IsPublishable h → from_dict p (obj (to_dict p h)) ≡ ok h
  from_dict-to_dict h v = from_dict_complete p (to_dict p h) h (to_dict-Describes h v)

-- ===== src/Tests/Toy.antt =====
-- A platform for the tests: an instant is written as four characters, its digits in base 2 ^ 15.
use Prim.Native.Char.{Char, IsScalar, char}
use text.Mathlib.TextLemmas.{cons-append}
use mcp_heartbeat.Prelude.{
  List, Option, String, ap, arith, if◌then◌else◌, inr, ltb, nat_eq, none, ok, refl, some, suc, true,
  ℕ, ◌%◌, ◌*◌, ◌+◌, ◌-◌, ◌/◌, ◌∷◌, ◌≡◌,
}
use mcp_heartbeat.Json.{Json, arr, cons, end, float, obj, str}
use mcp_heartbeat.Platform.{Instant, Moment, Platform}
use mcp_heartbeat.Text.{boot_id_re, codes, drop_last, node_id_re}
use mcp_heartbeat.Core.Errors.{boot_id_reuse}
use mcp_heartbeat.Core.Lineage.{
  LineageState, admit, admit_candidate, admitted, check_lineage, default_max_skew, hold, initial,
  is_duplicate, refusal,
}
use mcp_heartbeat.Core.Model.{Heartbeat, extension_version, to_dict}
use mcp_heartbeat.Core.Parse.{from_dict}
use mcp_heartbeat.Core.Validation.{document_reason}
use mcp_heartbeat.Prelude.Int.{negsuc, pos, ℤ}
use mcp_heartbeat.Core.Lineage.Outcomes.{admitted_complete}
use mcp_heartbeat.Core.Lineage.Rules.{Supersedes}
use mcp_heartbeat.Core.Parse.Agreement.{document_reason_complete, from_dict_complete}
use mcp_heartbeat.Core.Parse.Contract.{Describes}
use mcp_heartbeat.Core.Producer.Roundtrip.{
  IsFaithful, IsPublishable, IsWritable, to_dict-Describes, utc_moment,
}
use Prim.Native.String.{◌++◌ as append}

pub is_scalar : (n : ℕ) → IsScalar (n % 32768)
is_scalar n = ground arith

abbrev digit : ℕ → Char
digit n = char (n % 32768) (is_scalar n)

abbrev toy_strftime : Instant → String
toy_strftime t =
    let n = t / 1000 in
    String.◌∷◌ (digit n) (
      String.◌∷◌ (digit (n / 32768))
        (String.◌∷◌ (digit (n / 1073741824)) (String.◌∷◌ (digit (n / 35184372088832)) "000")))

abbrev encoded : ℕ → ℕ → ℕ → ℕ → ℤ → Option Moment
encoded a b c d offset = some (record {
  local = (a + 32768 * b + 1073741824 * c + 35184372088832 * d) * 1000;
  offset = some offset;
})

-- The four digits, then an offset: one that starts with "+2" is "+23:59", any other is zero.
abbrev digits : List ℕ → Option Moment
digits (a ∷ b ∷ c ∷ d ∷ sign ∷ hour ∷ rest) =
    encoded a b c d (if nat_eq hour b'2' then pos 86340000000 else pos 0)
digits _ = none

abbrev toy_fromisoformat : String → Option Moment
toy_fromisoformat s = digits (codes s)

abbrev toy_astimezone : Moment → Option Instant
toy_astimezone m = elim m.offset [
  | none ↦ none
  | some (pos o) ↦ if ltb m.local o then none else some (m.local - o)
  | some (negsuc o) ↦ some (m.local + suc o)
]

abbrev first_text : Json → String
first_text (arr (cons (str s) rest)) = s
first_text _ = ""

abbrev number_text : Json → Option String
number_text (float r) = some r
number_text _ = none

abbrev pub toy : Platform
toy = record {
  fromisoformat = toy_fromisoformat;
  astimezone = toy_astimezone;
  strftime = toy_strftime;
  dumps = λ v. "{}";
  dumps_ascii = first_text;
  encodes = λ s. true;
  sha256 = λ s. "0123456789abcdef0123456789abcdef0123456789abcdef0123456789abcdef";
  repr = λ v. "…";
  str_int = λ z. "0";
  lower = λ s. s;
  upper = λ s. s;
  quote = λ s. s;
  unquote = λ s. s;
  format_participant = λ template s. some (append "heartbeat://participants/" s);
  to_float = number_text;
  dict_of = λ xs. none;
}

local_lem :
    (t : Instant)
    → IsWritable t
    → (let n = t / 1000 in
        (n % 32768
          + 32768 * (n / 32768 % 32768)
          + 1073741824 * (n / 1073741824 % 32768)
          + 35184372088832 * (n / 35184372088832 % 32768))
        * 1000)
      ≡ t
local_lem t w = omega (arith, w.millis, w.below)

toy_reads_back :
    (t : Instant)
    → IsWritable t
    → toy_fromisoformat (append (drop_last (drop_last (drop_last (toy_strftime t)))) "+00:00")
      ≡ some (utc_moment t)
toy_reads_back t w =
    let n = t / 1000 in
    rw
      (
        cons-append (digit n)
            (String.◌∷◌ (digit (n / 32768))
              (String.◌∷◌ (digit (n / 1073741824)) (String.◌∷◌ (digit (n / 35184372088832)) "")))
            "+00:00",
        cons-append (digit (n / 32768))
            (String.◌∷◌ (digit (n / 1073741824)) (String.◌∷◌ (digit (n / 35184372088832)) ""))
            "+00:00",
        cons-append (digit (n / 1073741824)) (String.◌∷◌ (digit (n / 35184372088832)) "") "+00:00",
        cons-append (digit (n / 35184372088832)) "" "+00:00",
      )
      (ap (λ (l : ℕ). some (utc_moment l)) (local_lem t w))

pub toy-IsFaithful : IsFaithful toy
toy-IsFaithful = record { reads_back = toy_reads_back; utc_stays = λ t h. ground arith }

-- 2026-01-01T00:00:00Z
abbrev pub new_year : Instant
new_year = 63902822400000000

abbrev pub lease_of : String → ℕ → Instant → Heartbeat
lease_of boot sequence issued = record {
  node_id = some "node/a";
  boot_id = some boot;
  sequence = some (pos sequence);
  issued_at = issued;
  expires_at = issued + 30000000;
  version = extension_version;
  extensions = end;
}

abbrev pub document_of : Heartbeat → Json
document_of h = obj (to_dict toy h)

abbrev pub first_lease : Heartbeat
first_lease = lease_of "boot-1" 0 new_year

abbrev pub second_lease : Heartbeat
second_lease = lease_of "boot-1" 1 new_year

abbrev pub rebooted_lease : Heartbeat
rebooted_lease = lease_of "boot-2" 0 new_year

abbrev pub empty_state : LineageState
empty_state = initial "node/a"

abbrev pub first_state : LineageState
first_state = hold empty_state first_lease

abbrev pub rebooted_state : LineageState
rebooted_state = hold first_state rebooted_lease

pub lease-IsPublishable :
    (boot : String) (sequence : ℕ)
    → boot_id_re boot ≡ true
    → IsPublishable toy toy-IsFaithful (lease_of boot sequence new_year)
unfolding node_id_re
lease-IsPublishable boot sequence b = record {
  version = refl;
  node = refl;
  boot = b;
  sequence = omega arith;
  issued = record { millis = refl; above = omega arith; below = omega arith };
  expires = record { millis = refl; above = omega arith; below = omega arith };
  opens = omega arith;
  closes = omega arith;
  extension_keys = tt;
}

pub lease-Describes :
    (boot : String) (sequence : ℕ)
    → boot_id_re boot ≡ true
    → Describes toy
        (to_dict toy (lease_of boot sequence new_year))
        (lease_of boot sequence new_year)
lease-Describes boot sequence b =
    to_dict-Describes toy toy-IsFaithful (lease_of boot sequence new_year)
      (lease-IsPublishable boot sequence b)

pub lease-from_dict :
    (boot : String) (sequence : ℕ)
    → boot_id_re boot ≡ true
    → from_dict toy (document_of (lease_of boot sequence new_year))
      ≡ ok (lease_of boot sequence new_year)
lease-from_dict boot sequence b =
    from_dict_complete toy (to_dict toy (lease_of boot sequence new_year))
      (lease_of boot sequence new_year) (lease-Describes boot sequence b)

pub lease-document_reason :
    (boot : String) (sequence : ℕ)
    → boot_id_re boot ≡ true
    → document_reason toy (document_of (lease_of boot sequence new_year)) ≡ ok none
lease-document_reason boot sequence b =
    document_reason_complete toy (to_dict toy (lease_of boot sequence new_year))
      (lease_of boot sequence new_year) (lease-Describes boot sequence b)

pub first_lease-Supersedes : Supersedes empty_state first_lease new_year default_max_skew
first_lease-Supersedes = record {
  participant = refl;
  lineage = refl;
  not_ahead = omega arith;
  not_behind = omega arith;
  fresh = omega arith;
}

pub boot_1 : boot_id_re "boot-1" ≡ true
unfolding boot_id_re
boot_1 = refl

pub first_admitted :
    admit toy empty_state (document_of first_lease) new_year default_max_skew
    ≡ ok (admitted first_state)
first_admitted =
    admitted_complete toy empty_state (document_of first_lease) new_year default_max_skew
      first_lease (lease-document_reason "boot-1" 0 boot_1) (lease-from_dict "boot-1" 0 boot_1)
      first_lease-Supersedes

-- A document of the epoch that was given up is refused.
pub reuse_refused :
    admit toy rebooted_state (document_of second_lease) new_year default_max_skew
    ≡ ok (refusal rebooted_state boot_id_reuse)
unfolding admit admit_candidate is_duplicate check_lineage
reuse_refused = rw (lease-document_reason "boot-1" 1 boot_1, lease-from_dict "boot-1" 1 boot_1) refl

-- A later document of the held epoch is a duplicate, a rollback or an advance by its sequence.
pub second_admitted :
    admit toy first_state (document_of second_lease) new_year default_max_skew
    ≡ ok (admitted (hold first_state second_lease))
second_admitted =
    admitted_complete toy first_state (document_of second_lease) new_year default_max_skew
      second_lease (lease-document_reason "boot-1" 1 boot_1) (lease-from_dict "boot-1" 1 boot_1)
      (record {
        participant = refl;
        lineage = inr (refl, omega arith);
        not_ahead = omega arith;
        not_behind = omega arith;
        fresh = omega arith;
      })

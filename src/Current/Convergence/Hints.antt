-- ===== src/Current/Convergence/Hints.antt =====
-- What change hints do to a `HeartbeatConsumer`.
use mcp_heartbeat.Prelude.{
  Bool, List, Option, [], arith, false, if◌then◌else◌, length, ok, raise, refl, suc, true, ℕ, ◌+◌,
  ◌∙◌, ◌∷◌, ◌≡◌,
}
use mcp_heartbeat.Platform.{Platform}
use mcp_heartbeat.Core.Errors.{Raises}
use mcp_heartbeat.Core.Ports.{ChangeHint}
use mcp_heartbeat.Current.Convergence.{Consumer, on_hint}

-- an exception schedules nothing
abbrev pub is_scheduled : Raises Bool → Bool
is_scheduled (ok scheduled) = scheduled
is_scheduled (raise e) = false

-- `on_hint` for each hint in turn, with the number of refetches that were scheduled; a hint whose
-- comparison raises is counted and schedules none.
pub hear : Platform → Consumer → List (Option ChangeHint) → Consumer × ℕ
hear p c [] = (c, 0)
hear p c (hint ∷ hints) =
    let (c', scheduled) = on_hint p c hint in
    let (c'', n) = hear p c' hints in (c'', if is_scheduled scheduled then suc n else n)

-- What a hint leaves alone.
pub record SameLease (c d : Consumer) : Type 0 where
  pub participant : d.participant_id ≡ c.participant_id
  pub state : d.state ≡ c.state
  pub binding : d.last_binding ≡ c.last_binding
  pub last_fetch : d.last_fetch_at ≡ c.last_fetch_at
  pub fetches : d.fetches ≡ c.fetches

module _ (p : Platform) where
  pub on_hint-SameLease :
      (c : Consumer) (hint : Option ChangeHint) → SameLease c (on_hint p c hint).0
  unfolding on_hint
  on_hint-SameLease c hint = ground arith

  hear-SameLease :
      (c : Consumer) (hints : List (Option ChangeHint)) → SameLease c (hear p c hints).0
  unfolding hear
  hear-SameLease c [] = record {
    participant = refl;
    state = refl;
    binding = refl;
    last_fetch = refl;
    fetches = refl;
  }
  hear-SameLease c (hint ∷ hints) =
      let first = on_hint-SameLease c hint in
      let rest = hear-SameLease (on_hint p c hint).0 hints in
      record {
        participant = rest.participant ∙ first.participant;
        state = rest.state ∙ first.state;
        binding = rest.binding ∙ first.binding;
        last_fetch = rest.last_fetch ∙ first.last_fetch;
        fetches = rest.fetches ∙ first.fetches;
      }

  abbrev pub as_count : Bool → ℕ
  as_count true = 1
  as_count false = 0

  on_hint-pending :
      (c : Consumer) (hint : Option ChangeHint)
      → let (d, scheduled) = on_hint p c hint in
        (as_count c.refetch_pending + as_count (is_scheduled scheduled)
          ≡ as_count d.refetch_pending)
        × (d.hints_seen ≡ c.hints_seen + 1)
  unfolding on_hint
  on_hint-pending c hint = ground arith

  -- After any list of hints the number of refetches that were scheduled, plus one if a
  -- refetch was pending before, is one if a refetch is pending after and zero otherwise, and
  -- the hint counter grew by the length of the list.
  pub hear_coalesces :
      (c : Consumer) (hints : List (Option ChangeHint))
      → let (d, n) = hear p c hints in
        (as_count c.refetch_pending + n ≡ as_count d.refetch_pending)
        × (d.hints_seen ≡ c.hints_seen + length hints)
  unfolding hear
  hear_coalesces c [] = (omega arith, omega arith)
  hear_coalesces c (hint ∷ hints) =
      ground (arith, on_hint-pending c hint, hear_coalesces (on_hint p c hint).0 hints)

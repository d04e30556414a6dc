-- ===== src/Current/Subscriptions/Frames.antt =====
-- What a client hears of the frames that a server of this adapter builds.
use mathlib.Core.List.{append-nil, append_assoc}
use mcp_heartbeat.Prelude.{
  List, Option, Result-cases, String, [], ap, arith, false, inl, inr, ok, refl, some, sym, true,
  ◌++◌, ◌>>=◌, ◌∙◌, ◌∷◌, ◌≡◌,
}
use mcp_heartbeat.Json.{Fields, Json, arr, bool, float, get, int, is_null, null, obj, str, truthy}
use mcp_heartbeat.Platform.{Platform}
use mcp_heartbeat.Text.{digest_re}
use mcp_heartbeat.Core.Errors.{Raises}
use mcp_heartbeat.Core.Model.{Heartbeat, digest, is_digest, revision}
use mcp_heartbeat.Core.Ports.{ChangeHint, for_heartbeat, hint_from_dict, missing_hint_fields}
use mcp_heartbeat.Current.Contract.{updated_notification}
use mcp_heartbeat.Current.Era.{is_one_of}
use mcp_heartbeat.Current.Failures.{Call}
use mcp_heartbeat.Current.Subscriptions.{
  SubscriptionFilter, SubscriptionStream, accept_frame, build_acknowledgement,
  build_resource_updated, changed_uri, filter_from_dict, filter_to_dict, hints_in, honoured_filter,
  honoured_methods, open_stream, parse_hint,
}
use mcp_heartbeat.Current.Subscriptions.Ordering.{accept_all}

-- What is used of `sha256` and `hexdigest`: a digest has the form of one.
abbrev pub DigestsAreFormed : Platform → Type 0
DigestsAreFormed p = (h : Heartbeat) (d : String) → digest p h ≡ ok d → digest_re d ≡ true

filter_from_dict-filter_to_dict :
    (f : SubscriptionFilter) → filter_from_dict (filter_to_dict f) ≡ ok f
unfolding filter_from_dict filter_to_dict
filter_from_dict-filter_to_dict f = refl

-- The acknowledgement opens a stream with the filter that it honours.
accept_acknowledgement :
    (s : SubscriptionStream) (g : SubscriptionFilter) (subscription : Json)
    → s.acknowledged ≡ false
    → is_null subscription ≡ false
    → accept_frame s (build_acknowledgement subscription g) ≡ (
      ok (build_acknowledgement subscription g),
      record s { acknowledged = true; subscription_id = subscription; honoured = some g },
    )
unfolding accept_frame build_acknowledgement filter_from_dict filter_to_dict
accept_acknowledgement s g subscription a n = ground (arith, a, n)

-- an address, a revision and a digest, and the hint that they make
abbrev pub Announced : Type 0
Announced = String × String × String

abbrev pub hint_with : Announced → ChangeHint
hint_with (uri, r, d) = record { address = str uri; revision = str r; digest = str d }

abbrev pub frames_with : Json → List Announced → List Fields
frames_with subscription [] = []
frames_with subscription (a ∷ ns) =
    build_resource_updated a.0 (some (hint_with a)) subscription ∷ frames_with subscription ns

abbrev pub hints_with : List Announced → List (String × Option ChangeHint)
hints_with [] = []
hints_with (a ∷ ns) = (a.0, some (hint_with a)) ∷ hints_with ns

abbrev pub AllFormed : List Announced → Type 0
AllFormed [] = Unit
AllFormed ((uri, r, d) ∷ ns) = (digest_re d ≡ true) × AllFormed ns

parse_hint-update :
    (subscription : Json) (uri r d : String)
    → digest_re d ≡ true
    → let frame = build_resource_updated uri (some (hint_with (uri, r, d))) subscription in
      (parse_hint frame ≡ some (hint_with (uri, r, d)))
      × (changed_uri frame ≡ some uri)
      × (get "method" frame ≡ str updated_notification)
unfolding parse_hint build_resource_updated changed_uri hint_from_dict is_digest missing_hint_fields
parse_hint-update null uri r d e = (rw e refl, refl, refl)
parse_hint-update (str s) uri r d e = (rw e refl, refl, refl)
parse_hint-update (int z) uri r d e = (rw e refl, refl, refl)
parse_hint-update (bool z) uri r d e = (rw e refl, refl, refl)
parse_hint-update (float z) uri r d e = (rw e refl, refl, refl)
parse_hint-update (arr z) uri r d e = (rw e refl, refl, refl)
parse_hint-update (obj z) uri r d e = (rw e refl, refl, refl)

updated_is_honoured :
    (f : SubscriptionFilter)
    → truthy (arr f.resource_subscriptions) ≡ true
    → is_one_of (str updated_notification) (honoured_methods f) ≡ true
unfolding honoured_methods
updated_is_honoured f t = ground (arith, t)

accept_update :
    (s : SubscriptionStream) (frame : Fields)
    → get "method" frame ≡ str updated_notification
    → s.acknowledged ≡ true
    → truthy (arr (honoured_filter s).resource_subscriptions) ≡ true
    → (accept_frame s frame).1 ≡ record s { received = s.received ++ frame ∷ [] }
unfolding accept_frame
accept_update s frame m a t = simp (m, a, updated_is_honoured (honoured_filter s) t)

accept_all-frames_with :
    (s : SubscriptionStream) (subscription : Json) (ns : List Announced)
    → AllFormed ns
    → s.acknowledged ≡ true
    → truthy (arr (honoured_filter s).resource_subscriptions) ≡ true
    → (accept_all s (frames_with subscription ns)).received
      ≡ s.received ++ frames_with subscription ns
unfolding accept_all
accept_all-frames_with s subscription [] f a t = sym (append-nil s.received)
accept_all-frames_with s subscription ((uri, r, d) ∷ ns) f a t =
    let frame = build_resource_updated uri (some (hint_with (uri, r, d))) subscription in
    let (parsed, changed, method) = parse_hint-update subscription uri r d f.0 in
    let rest =
      accept_all-frames_with (record s { received = s.received ++ frame ∷ [] }) subscription ns f.1
        a t in
    ap (λ (s' : SubscriptionStream). (accept_all s' (frames_with subscription ns)).received)
      (accept_update s frame method a t)
    ∙ (rest ∙ append_assoc s.received (frame ∷ []) (frames_with subscription ns))

hints_in-frames_with :
    (subscription : Json) (ns : List Announced)
    → AllFormed ns
    → hints_in (frames_with subscription ns) ≡ hints_with ns
unfolding hints_in build_resource_updated
hints_in-frames_with subscription [] f = refl
hints_in-frames_with subscription ((uri, r, d) ∷ ns) f =
    let (parsed, changed, method) = parse_hint-update subscription uri r d f.0 in
    simp (method, changed, parsed, hints_in-frames_with subscription ns f.1)

module _ (p : Platform) where
  -- the frame for a new revision of a heartbeat, or what its digest raises
  abbrev pub update_of : Json → String × Heartbeat → Raises Fields
  update_of subscription (uri, h) =
      for_heartbeat p h uri >>= λ hint. ok (build_resource_updated uri (some hint) subscription)

  abbrev pub updates_of : Json → List (String × Heartbeat) → Raises (List Fields)
  updates_of subscription [] = ok []
  updates_of subscription (u ∷ us) = do
    frame ← update_of subscription u
    frames ← updates_of subscription us
    ok (frame ∷ frames)

  abbrev pub hints_of : List (String × Heartbeat) → Raises (List (String × Option ChangeHint))
  hints_of [] = ok []
  hints_of ((uri, h) ∷ us) = do
    hint ← for_heartbeat p h uri
    hints ← hints_of us
    ok ((uri, some hint) ∷ hints)

  -- what is announced where every heartbeat has a digest
  announced :
      (subscription : Json) (us : List (String × Heartbeat)) (frames : List Fields)
      → DigestsAreFormed p
      → updates_of subscription us ≡ ok frames
      → (ns : List Announced) × (frames ≡ frames_with subscription ns)
        × AllFormed ns
        × (hints_of us ≡ ok (hints_with ns))
  unfolding for_heartbeat
  announced subscription [] frames f e = ([], cc, tt, refl)
  announced subscription ((uri, h) ∷ us) frames f e = elim (Result-cases (digest p h)) [
    | inr (x, q) ↦ absurd (ground (arith, e, q))
    | inl (d, q) ↦ elim (Result-cases (updates_of subscription us)) [
      | inr (x, r) ↦ absurd (ground (arith, e, q, r))
      | inl (rest, r) ↦
          let (ns, same_, formed, hints) = announced subscription us rest f r in
          (
            (uri, revision p h, d) ∷ ns,
            ground (arith, e, q, r, same_),
            (f h d q, formed),
            rw (q, hints) refl,
          )
    ]
  ]

  -- On a platform whose digests have the form of a digest: when the updates for any list of
  -- addresses and heartbeats can be built, because every heartbeat has a digest, a stream
  -- that hears an acknowledgement with a subscription id that is not null and a filter that
  -- names a resource, and then these updates, gives as hints exactly the addresses in order,
  -- each with the hint for its heartbeat.
  pub stream_delivers :
      (f g : SubscriptionFilter) (subscription : Json) (us : List (String × Heartbeat))
      (frames : List Fields)
      → DigestsAreFormed p
      → is_null subscription ≡ false
      → truthy (arr g.resource_subscriptions) ≡ true
      → updates_of subscription us ≡ ok frames
      → hints_of us
        ≡ ok (
            hints_in
              (accept_all (open_stream f) (build_acknowledgement subscription g ∷ frames)).received)
  unfolding accept_all open_stream
  stream_delivers f g subscription us frames d n t e =
      let opened : SubscriptionStream = record {
        subscription_filter = f;
        subscription_id = subscription;
        honoured = some g;
        acknowledged = true;
        received = [];
      } in
      let (ns, built, formed, hints) = announced subscription us frames d e in
      let heard =
        ap
          (λ (s : SubscriptionStream).
            hints_in (accept_all s (frames_with subscription ns)).received)
          (ap (λ (r : Call Fields × SubscriptionStream). r.1)
            (accept_acknowledgement (open_stream f) g subscription refl n))
        ∙ (ap hints_in (accept_all-frames_with opened subscription ns formed refl t)
            ∙ hints_in-frames_with subscription ns formed) in
      rw built (hints ∙ ap ok (sym heard))

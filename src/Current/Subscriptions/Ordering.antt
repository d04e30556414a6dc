-- ===== src/Current/Subscriptions/Ordering.antt =====
-- What holds of a `SubscriptionStream` over any frames, in any order.
use mathlib.Core.Path.{subst}
use mcp_heartbeat.Prelude.{
  Bool-cases, List, String, [], arith, false, inl, inr, none, ok, raise, refl, true, ◌&&◌, ◌++◌,
  ◌∷◌, ◌≡◌,
}
use mcp_heartbeat.Json.{Fields, get, is_null, is_text, members}
use mcp_heartbeat.Current.Contract.{
  acknowledged_notification, listen_stream_methods, subscription_id_key,
}
use mcp_heartbeat.Current.Era.{is_hashable, is_one_of}
use mcp_heartbeat.Current.Failures.{Call}
use mcp_heartbeat.Current.Subscriptions.{
  SubscriptionFilter, SubscriptionStream, accept_frame, acknowledge, honoured_by, honoured_filter,
  honoured_methods, open_stream, params_of, receive, take_honoured,
}

-- The method of each frame is one of those that were asked for, and of a stream.
abbrev pub AllHonoured : List String → List Fields → Type 0
AllHonoured methods [] = Unit
AllHonoured methods (frame ∷ frames) =
    (is_one_of (get "method" frame) methods ≡ true)
    × (is_one_of (get "method" frame) listen_stream_methods ≡ true)
    × AllHonoured methods frames

pub record StreamIsSound (s : SubscriptionStream) : Type 0 where
  pub silent_before : s.acknowledged ≡ false → (s.received ≡ []) × (s.honoured ≡ none)
  pub identified : s.acknowledged ≡ true → is_null s.subscription_id ≡ false
  pub honoured_only : AllHonoured (honoured_methods (honoured_filter s)) s.received

AllHonoured-append :
    (methods : List String) (frames : List Fields) (frame : Fields)
    → AllHonoured methods frames
    → is_one_of (get "method" frame) methods ≡ true
    → is_one_of (get "method" frame) listen_stream_methods ≡ true
    → AllHonoured methods (frames ++ frame ∷ [])
AllHonoured-append methods [] frame a h l = (h, l, tt)
AllHonoured-append methods (f ∷ frames) frame (x, y, a) h l =
    (x, y, AllHonoured-append methods frames frame a h l)

take_honoured-StreamIsSound :
    (s : SubscriptionStream) (frame : Fields) (r : Call SubscriptionFilter)
    → s.acknowledged ≡ true
    → is_null s.subscription_id ≡ false
    → s.received ≡ []
    → StreamIsSound (take_honoured s frame r).1
take_honoured-StreamIsSound s frame (ok f) a i e = record {
  silent_before = λ q. cc (q, a);
  identified = λ q. i;
  honoured_only = rw e tt;
}
take_honoured-StreamIsSound s frame (raise x) a i e = record {
  silent_before = λ q. cc (q, a);
  identified = λ q. i;
  honoured_only = rw e tt;
}

acknowledge-StreamIsSound :
    (s : SubscriptionStream) (frame : Fields)
    → StreamIsSound s
    → StreamIsSound (acknowledge s frame).1
acknowledge-StreamIsSound s frame h =
    let subscription = get subscription_id_key (members (get "_meta" (params_of frame))) in
    elim (Bool-cases s.acknowledged) [
      | inl e ↦ subst StreamIsSound (ground (arith, e)) h
      | inr e ↦ elim (Bool-cases (is_null subscription)) [
        | inl n ↦ subst StreamIsSound (ground (arith, n)) h
        | inr n ↦
            let opened : SubscriptionStream = record s {
              acknowledged = true;
              subscription_id = subscription;
            } in
            subst StreamIsSound (ground (arith, e, n)) (
              take_honoured-StreamIsSound opened frame
                (honoured_by s (get "notifications" (params_of frame))) refl n
                (h.silent_before e).0)
      ]
    ]

receive_accepted :
    (s : SubscriptionStream) (frame : Fields)
    → StreamIsSound s
    → s.acknowledged ≡ true
    → is_one_of (get "method" frame) (honoured_methods (honoured_filter s)) ≡ true
    → is_one_of (get "method" frame) listen_stream_methods ≡ true
    → StreamIsSound (record s { received = s.received ++ frame ∷ [] })
receive_accepted s frame h a m l = record {
  silent_before = λ q. cc (q, a);
  identified = h.identified;
  honoured_only =
      AllHonoured-append (honoured_methods (honoured_filter s)) s.received frame h.honoured_only m
        l;
}

receive-StreamIsSound :
    (s : SubscriptionStream) (frame : Fields)
    → StreamIsSound s
    → StreamIsSound (receive s frame (get "method" frame)).1
receive-StreamIsSound s frame h =
    let listed = is_one_of (get "method" frame) listen_stream_methods in
    let asked = is_one_of (get "method" frame) (honoured_methods (honoured_filter s)) in
    elim (Bool-cases (s.acknowledged && is_hashable (get "method" frame) && listed && asked)) [
      | inl e ↦
          subst StreamIsSound (ground (arith, e))
            (receive_accepted s frame h (ground (arith, e)) (ground (arith, e)) (ground (arith, e)))
      | inr e ↦ subst StreamIsSound (ground (arith, e)) h
    ]

-- Each frame keeps the stream sound, accepted or not.
accept_frame-StreamIsSound :
    (s : SubscriptionStream) (frame : Fields)
    → StreamIsSound s
    → StreamIsSound (accept_frame s frame).1
unfolding accept_frame
accept_frame-StreamIsSound s frame h =
    elim (Bool-cases (is_text (get "method" frame) acknowledged_notification)) [
      | inl e ↦ rw e (acknowledge-StreamIsSound s frame h)
      | inr e ↦ rw e (receive-StreamIsSound s frame h)
    ]

-- a stream that has seen these frames
unfoldable pub accept_all : SubscriptionStream → List Fields → SubscriptionStream
accept_all s [] = s
accept_all s (frame ∷ frames) = accept_all (accept_frame s frame).1 frames

accept_all-StreamIsSound :
    (s : SubscriptionStream) (frames : List Fields)
    → StreamIsSound s
    → StreamIsSound (accept_all s frames)
unfolding accept_all
accept_all-StreamIsSound s [] h = h
accept_all-StreamIsSound s (frame ∷ frames) h =
    accept_all-StreamIsSound (accept_frame s frame).1 frames (accept_frame-StreamIsSound s frame h)

-- After any list of frames, accepted or refused, a stream that was opened is sound: before the
-- acknowledgement nothing was received and no filter was honoured, after it a subscription id
-- is held, and each frame that was received has a method of a listen stream that the honoured
-- filter admits.
pub accept_all_open-StreamIsSound :
    (f : SubscriptionFilter) (frames : List Fields)
    → StreamIsSound (accept_all (open_stream f) frames)
unfolding open_stream
accept_all_open-StreamIsSound f frames =
    accept_all-StreamIsSound (open_stream f) frames
      (record { silent_before = λ q. (refl, refl); identified = λ q. cc q; honoured_only = tt })

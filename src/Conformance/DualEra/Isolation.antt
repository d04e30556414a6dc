-- ===== src/Conformance/DualEra/Isolation.antt =====
-- A message of one era does not reach the other.
use mathlib.Core.List.{append-nil, append_assoc}
use Prim.Native.String.{◌++◌ as append}
use mcp_heartbeat.Prelude.{
  List, Option, String, [], ap, none, ok, raise, refl, some, sym, ◌++◌, ◌∙◌, ◌∷◌, ◌≡◌,
}
use mcp_heartbeat.Json.{Fields, Json, get}
use mcp_heartbeat.Platform.{Platform, show}
use mcp_heartbeat.Conformance.DualEra.{
  DualServer, dispatch_era, legacy_call, recorded, refuse_with, serve_dual, serve_routed,
}
use mcp_heartbeat.Current.Era.{Era, EraRoute, current_era, handshake_era, route}
use mcp_heartbeat.Current.Failures.{AdapterError, Call, Raised}
use mcp_heartbeat.Current.Metadata.{Headers}
use mcp_heartbeat.Legacy.Session.{Server}

abbrev pub Message : Type 0
Message = Fields × Headers

module _ (p : Platform) where
  unfoldable pub serve_all : DualServer → List Message → DualServer
  serve_all d [] = d
  serve_all d ((body, headers) ∷ ms) = serve_all (serve_dual p d body headers).1 ms

  -- what one message adds to the calls of the session, and to the ledger
  abbrev pub legacy_part : Call EraRoute → Fields → List (String × Json)
  legacy_part (raise e) body = []
  legacy_part (ok r) body = elim r.era [
    | current_era ↦ []
    | handshake_era ↦ (show p (get "method" body), get "params" body) ∷ []
  ]

  abbrev pub label_part : Call EraRoute → Fields → List String
  label_part (raise e) body = []
  label_part (ok r) body = elim r.era [
    | current_era ↦ append "current:" (show p (get "method" body)) ∷ []
    | handshake_era ↦ append "legacy:" (show p (get "method" body)) ∷ []
  ]

  abbrev pub legacy_parts : List Message → List (String × Json)
  legacy_parts [] = []
  legacy_parts ((body, headers) ∷ ms) = legacy_part (route p body headers) body ++ legacy_parts ms

  abbrev pub label_parts : List Message → List String
  label_parts [] = []
  label_parts ((body, headers) ∷ ms) = label_part (route p body headers) body ++ label_parts ms

  -- a session that hears these calls and no other message
  unfoldable pub legacy_alone : Server → List (String × Json) → Server
  legacy_alone s [] = s
  legacy_alone s ((method, params) ∷ calls) = legacy_alone (legacy_call p s method params).1 calls

  abbrev pub SeparatedBy : List (String × Json) → List String → DualServer → DualServer → Type 0
  SeparatedBy calls labels d d' =
      (d'.legacy ≡ legacy_alone d.legacy calls)
      × (d'.mutations ≡ d.mutations ++ labels)
      × (d'.current ≡ d.current)
      × (d'.issuer ≡ d.issuer)
      × (d'.clock ≡ d.clock)

  era_separated :
      (d : DualServer) (method : String) (params : Json) (era : Era)
      → SeparatedBy
          (elim era [ current_era ↦ [] | handshake_era ↦ (method, params) ∷ [] ])
          (elim era [
            | current_era ↦ append "current:" method ∷ []
            | handshake_era ↦ append "legacy:" method ∷ []
          ])
          d
          (dispatch_era p d method params era).1
  unfolding legacy_alone
  era_separated d method params current_era = (refl, refl, refl, refl, refl)
  era_separated d method params handshake_era = (refl, refl, refl, refl, refl)

  refused_separated :
      (d : DualServer) (method : Json) (e : Raised) (o : Option AdapterError)
      → SeparatedBy [] [] d (refuse_with p d method e o).1
  unfolding legacy_alone
  refused_separated d method e none = (refl, sym (append-nil d.mutations), refl, refl, refl)
  refused_separated d method e (some a) = (refl, sym (append-nil d.mutations), refl, refl, refl)

  routed_separated :
      (d : DualServer) (body : Fields) (c : Call EraRoute)
      → SeparatedBy (legacy_part c body) (label_part c body) d (serve_routed p d body c).1
  routed_separated d body (ok r) =
      era_separated d (show p (get "method" body)) (get "params" body) r.era
  routed_separated d body (raise e) = refused_separated d (get "method" body) e (recorded e)

  legacy_alone-append :
      (s : Server) (xs ys : List (String × Json))
      → legacy_alone s (xs ++ ys) ≡ legacy_alone (legacy_alone s xs) ys
  unfolding legacy_alone
  legacy_alone-append s [] ys = refl
  legacy_alone-append s ((method, params) ∷ xs) ys =
      legacy_alone-append (legacy_call p s method params).1 xs ys

  -- After any list of messages to the server of both eras: the legacy session is what it
  -- would be had it heard the handshake messages alone, in their order; the ledger of
  -- mutations grew by exactly one entry for each message that was routed, with its era; and
  -- the lease, the issuer and the clock are as they were.
  pub serve_all_separated :
      (d : DualServer) (ms : List Message)
      → SeparatedBy (legacy_parts ms) (label_parts ms) d (serve_all d ms)
  unfolding serve_all serve_dual legacy_alone
  serve_all_separated d [] = (refl, sym (append-nil d.mutations), refl, refl, refl)
  serve_all_separated d ((body, headers) ∷ ms) =
      let c = route p body headers in
      let d' = (serve_routed p d body c).1 in
      let (l, m, cu, i, k) = routed_separated d body c in
      let (l', m', cu', i', k') = serve_all_separated d' ms in
      (
        l'
            ∙ (ap (λ (s : Server). legacy_alone s (legacy_parts ms)) l
                ∙ sym (legacy_alone-append d.legacy (legacy_part c body) (legacy_parts ms))),
        m'
            ∙ (ap (λ (xs : List String). xs ++ label_parts ms) m
                ∙ append_assoc d.mutations (label_part c body) (label_parts ms)),
        cu' ∙ cu,
        i' ∙ i,
        k' ∙ k,
      )

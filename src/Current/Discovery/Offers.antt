-- ===== src/Current/Discovery/Offers.antt =====
-- What a client negotiates from what a server of this adapter offers.
use mcp_heartbeat.Prelude.{
  Bool, Option, Result-cases, String, arith, eq_refl, if◌then◌else◌, inl, inr, none, ok, refl, some,
  true, ◌==◌, ◌||◌, ◌↔◌, ◌∙◌, ◌≡◌, ◌≢◌,
}
use mcp_heartbeat.Json.{
  Fields, Json, arr, cons, end, field, float, get, get-set_item, members, nil, obj, set_item, str,
}
use mcp_heartbeat.Platform.{Platform, show}
use mcp_heartbeat.Current.Contract.{heartbeat_extension, highest_mutual_version, protocol_revision}
use mcp_heartbeat.Current.Discovery.{
  HeartbeatCapability, Negotiation, build_discover_result, capability_from_dict, capability_given,
  capability_to_dict, copied, discover_capabilities, enabled, extensions_given, get_or, negotiate,
  negotiate_extension, other_capabilities_of, serves_change_hints,
}
use mcp_heartbeat.Current.Failures.{Call}

get-copied_extensions :
    (target others : Fields) → get "extensions" (copied target others) ≡ get "extensions" target
get-copied_extensions target end = refl
get-copied_extensions target (field k v fs) =
    get-copied_extensions
      (if k == "extensions" || k == "resources" then target else set_item k v target) fs
    ∙ ground (arith, get-set_item "extensions" k v target)

-- What is used of `float`: the value of a float is the float.
abbrev pub FloatsAreRead : Platform → Type 0
FloatsAreRead p = (r : String) → p.to_float (float r) ≡ some r

module _ (p : Platform) where
  capability_read :
      (c : HeartbeatCapability)
      → FloatsAreRead p
      → capability_from_dict p (capability_to_dict c) ≡ ok c
  unfolding capability_from_dict capability_to_dict
  capability_read c f = rw (f c.max_lease_seconds) refl

  module _ (wanted : String) (strict : Bool) (result : Fields) where
    -- what a client reads of an answer
    abbrev pub capabilities_of : Fields
    capabilities_of = members (get "capabilities" result)

    abbrev pub extension_of : Json
    extension_of = get heartbeat_extension (members (get "extensions" capabilities_of))

    negotiate_lem :
        (agreed : String)
        → highest_mutual_version (get "supportedVersions" result) ≡ some agreed
        → negotiate p wanted strict result
          ≡ negotiate_extension p wanted strict agreed
              (other_capabilities_of capabilities_of)
              extension_of
    unfolding negotiate
    negotiate_lem agreed h = ground (arith, h)

  judge_lem :
      (wanted : String) (strict : Bool) (agreed : String) (others : Fields)
      (c : HeartbeatCapability) (extension : Json)
      → extension ≡ obj (capability_to_dict c)
      → FloatsAreRead p
      → c.extension_version ≡ wanted
      → negotiate_extension p wanted strict agreed others extension
        ≡ ok (enabled p wanted strict agreed others c)
  judge_lem wanted strict agreed others c extension e f w =
      simp (e, capability_read c f, w, eq_refl)

  module _ (server_info : Fields) (capability : Option HeartbeatCapability) (others : Fields)
      (instructions : Option String) (serves_listen : Bool) (wanted : String) (strict : Bool) where
    abbrev pub NegotiatesTo : Fields → HeartbeatCapability → Type 0
    NegotiatesTo result c =
        (n : Negotiation) × (negotiate p wanted strict result ≡ ok n)
        × (n.protocol_revision ≡ protocol_revision)
        × (n.heartbeat_enabled ≡ true)
        × (n.capability ≡ some c)
        × (serves_change_hints n ≡ c.change_hints)

    result_parts :
        (result : Fields)
        → build_discover_result p server_info capability others instructions serves_listen
          ≡ ok result
        → (extensions : Fields) × (get "supportedVersions" result
            ≡ arr (cons (str protocol_revision) nil))
          × (get "capabilities" result
              ≡ obj (
                  discover_capabilities p server_info capability others instructions serves_listen
                    extensions))
    unfolding build_discover_result
    result_parts result b =
        elim (Result-cases
          (extensions_given p server_info capability others instructions serves_listen)) [
            | inl (x, q) ↦ (x, ground (arith, q), ground (arith, q))
            | inr (e, q) ↦ ground (arith, q)
          ]

    published :
        (extensions : Fields)
        → get heartbeat_extension (
            members (
              get "extensions" (
                discover_capabilities p server_info capability others instructions serves_listen
                  extensions)))
          ≡ obj (
              capability_to_dict
                (capability_given p server_info capability others instructions serves_listen))
    unfolding discover_capabilities
    published extensions = simp (get-copied_extensions, get-set_item)

    pub negotiate-build_discover_result :
        (result : Fields)
        → FloatsAreRead p
        → build_discover_result p server_info capability others instructions serves_listen
          ≡ ok result
        → (capability_given p server_info capability others instructions
            serves_listen).extension_version
          ≡ wanted
        → NegotiatesTo result
            (capability_given p server_info capability others instructions serves_listen)
    unfolding negotiate highest_mutual_version serves_change_hints
    negotiate-build_discover_result result f b w =
        let c = capability_given p server_info capability others instructions serves_listen in
        let (extensions, versions, offered) = result_parts result b in
        let capabilities =
          discover_capabilities p server_info capability others instructions serves_listen
            extensions in
        (
          enabled p wanted strict protocol_revision (other_capabilities_of capabilities) c,
          negotiate_lem wanted strict result protocol_revision (rw versions refl)
              ∙ rw offered (
                  judge_lem wanted strict protocol_revision (other_capabilities_of capabilities) c _
                    (published extensions) f w),
          refl,
          refl,
          refl,
          refl,
        )

-- The lease bound of a published extension reads as a float.
abbrev pub BoundIsRead : Platform → Json → Type 0
BoundIsRead p (obj raw) = p.to_float (get_or "max_lease_seconds" (float "300.0") raw) ≢ none
BoundIsRead p _ = Unit

-- The extension is there in the wanted version.
abbrev pub IsUsable : Platform → String → Json → Type 0
IsUsable p wanted (obj raw) = show p (get_or "extension_version" (str "") raw) ≡ wanted
IsUsable p wanted _ = ⊥

module _ (p : Platform) where
  -- what holds of the negotiation of an extension that is not strict
  abbrev pub KeepsOthers : String → String → Fields → Json → Call Negotiation → Type 0
  KeepsOthers wanted agreed others extension r =
      (n : Negotiation) × (r ≡ ok n)
      × (n.protocol_revision ≡ agreed)
      × (n.other_capabilities ≡ others)
      × ((n.heartbeat_enabled ≡ true) ↔ IsUsable p wanted extension)

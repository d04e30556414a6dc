-- ===== src/Current/Subscriptions.antt =====
-- src/mcp_heartbeat_current/subscriptions.py: the frames of one `subscriptions/listen` stream.
pub mod Ordering
pub mod Frames
use mcp_heartbeat.Prelude.{
  Bool, List, Option, String, [], false, if◌then◌else◌, none, not, ok, raise, some, true, ◌++◌,
  ◌>>=◌, ◌||◌, ◌∷◌,
}
use mcp_heartbeat.Json.{
  Fields, Items, Json, arr, bool, cons, end, field, get, is_null, is_text, members, nil, null, obj,
  str, truthy,
}
use mcp_heartbeat.Platform.{Platform}
use mcp_heartbeat.Core.Errors.{Raises, type_error}
use mcp_heartbeat.Core.Model.{digest, revision}
use mcp_heartbeat.Core.Ports.{ChangeHint, hint_from_dict}
use mcp_heartbeat.Current.Contract.{
  acknowledged_notification, heartbeat_extension, listen_method, listen_stream_methods,
  prompts_changed, resources_changed, subscription_id_key, tools_changed, updated_notification,
}
use mcp_heartbeat.Current.Discovery.{request_of_method}
use mcp_heartbeat.Current.Era.{is_hashable, is_one_of, text_or_none}
use mcp_heartbeat.Current.Failures.{Call, adapter, builtin, subscription_protocol}
use mcp_heartbeat.Current.Metadata.{Headers, build_request}

-- The subscriptions are whatever the list holds.
pub record SubscriptionFilter : Type 0 where
  pub tools_list_changed : Bool
  pub prompts_list_changed : Bool
  pub resources_list_changed : Bool
  pub resource_subscriptions : Items

unfoldable pub filter_to_dict : SubscriptionFilter → Fields
filter_to_dict f = field "toolsListChanged" (bool f.tools_list_changed) (
    field "promptsListChanged" (bool f.prompts_list_changed) (
      field "resourcesListChanged" (bool f.resources_list_changed)
        (field "resourceSubscriptions" (arr f.resource_subscriptions) end)))

-- the characters of a text and the keys of a mapping, as a tuple takes them
abbrev pub characters : String → Items
characters String.[] = nil
characters (String.◌∷◌ c s) = cons (str (String.◌∷◌ c String.[])) (characters s)

abbrev pub key_items : Fields → Items
key_items end = nil
key_items (field k v fs) = cons (str k) (key_items fs)

-- `tuple(value or ())`
abbrev pub as_tuple : Json → Call Items
as_tuple (arr xs) = ok xs
as_tuple (str s) = ok (characters s)
as_tuple (obj fs) = ok (key_items fs)
as_tuple v = if truthy v then raise (builtin type_error) else ok nil

unfoldable pub filter_from_dict : Fields → Call SubscriptionFilter
filter_from_dict raw = do
  subscriptions ← as_tuple (get "resourceSubscriptions" raw)
  ok (record {
    tools_list_changed = truthy (get "toolsListChanged" raw);
    prompts_list_changed = truthy (get "promptsListChanged" raw);
    resources_list_changed = truthy (get "resourcesListChanged" raw);
    resource_subscriptions = subscriptions;
  })

abbrev pub if_listed : Bool → String → List String → List String
if_listed b method rest = if b then method ∷ rest else rest

unfoldable pub honoured_methods : SubscriptionFilter → List String
honoured_methods f = if_listed f.tools_list_changed tools_changed (
    if_listed f.prompts_list_changed prompts_changed (
      if_listed f.resources_list_changed resources_changed
        (if_listed (truthy (arr f.resource_subscriptions)) updated_notification [])))

-- the texts of a list, as JSON
abbrev pub text_items : List String → Items
text_items [] = nil
text_items (t ∷ ts) = cons (str t) (text_items ts)

unfoldable pub for_participants : List String → Bool → SubscriptionFilter
for_participants uris include_list = record {
  tools_list_changed = false;
  prompts_list_changed = false;
  resources_list_changed = include_list;
  resource_subscriptions = text_items uris;
}

-- the request that opens a stream
unfoldable pub build_listen_request :
    Platform → SubscriptionFilter → Json → String → Fields → Fields → Call (Fields × Headers)
unfolding filter_to_dict
build_listen_request p f request_id agreed info capabilities =
    build_request p
      (request_of_method p listen_method (field "notifications" (obj (filter_to_dict f)) end) agreed
        info capabilities)
      request_id

abbrev pub notification : String → Fields → Fields
notification method params =
    field "jsonrpc" (str "2.0") (field "method" (str method) (field "params" (obj params) end))

unfoldable pub build_acknowledgement : Json → SubscriptionFilter → Fields
unfolding filter_to_dict
build_acknowledgement subscription honoured = notification acknowledged_notification (
    field "notifications" (obj (filter_to_dict honoured))
      (field "_meta" (obj (field subscription_id_key subscription end)) end))

-- the members of `_meta`
abbrev pub hint_meta : Option ChangeHint → Fields
hint_meta none = end
hint_meta (some hint) =
    field heartbeat_extension
      (obj (field "revision" hint.revision (field "digest" hint.digest end))) end

abbrev pub updated_meta : Json → Option ChangeHint → Fields
updated_meta null hint = hint_meta hint
updated_meta subscription hint = field subscription_id_key subscription (hint_meta hint)

-- `if meta: params["_meta"] = meta`
abbrev pub meta_member : Fields → Fields
meta_member end = end
meta_member (field k v fs) = field "_meta" (obj (field k v fs)) end

unfoldable pub build_resource_updated : String → Option ChangeHint → Json → Fields
build_resource_updated uri hint subscription =
    notification updated_notification
      (field "uri" (str uri) (meta_member (updated_meta subscription hint)))

-- `ChangeHint.from_dict`, where any exception is None
abbrev pub hint_or_none : Raises ChangeHint → Option ChangeHint
hint_or_none (ok hint) = some hint
hint_or_none (raise e) = none

abbrev pub hint_payload : String → Json → Option ChangeHint
hint_payload uri (obj payload) = hint_or_none (
    hint_from_dict (
      field "address" (str uri)
        (field "revision" (get "revision" payload) (field "digest" (get "digest" payload) end))))
hint_payload uri _ = none

abbrev pub params_of : Fields → Fields
params_of frame = members (get "params" frame)

unfoldable pub changed_uri : Fields → Option String
changed_uri frame = text_or_none (get "uri" (params_of frame))

unfoldable pub parse_hint : Fields → Option ChangeHint
parse_hint frame =
    if not (is_text (get "method" frame) updated_notification)
    then none
    else elim (text_or_none (get "uri" (params_of frame))) [
      | none ↦ none
      | some uri ↦
          hint_payload uri (get heartbeat_extension (members (get "_meta" (params_of frame))))
    ]

-- `SubscriptionStream`
pub record SubscriptionStream : Type 0 where
  pub subscription_filter : SubscriptionFilter
  pub subscription_id : Json
  pub honoured : Option SubscriptionFilter
  pub acknowledged : Bool
  pub received : List Fields

unfoldable pub open_stream : SubscriptionFilter → SubscriptionStream
open_stream f = record {
  subscription_filter = f;
  subscription_id = null;
  honoured = none;
  acknowledged = false;
  received = [];
}

-- `self.honoured or self.subscription_filter`; a filter is always true
abbrev pub honoured_filter : SubscriptionStream → SubscriptionFilter
honoured_filter s = elim s.honoured [ none ↦ s.subscription_filter | some f ↦ f ]

abbrev pub protocol_broken : {A : Type 0} → Call A
protocol_broken = raise (adapter subscription_protocol)

-- the filter that an acknowledgement carries
abbrev pub honoured_by : SubscriptionStream → Json → Call SubscriptionFilter
honoured_by s (obj fs) = filter_from_dict fs
honoured_by s v = ok s.subscription_filter

-- The flag and the identifier are set before the filter is read, so they stay if that raises.
abbrev pub take_honoured :
    SubscriptionStream → Fields → Call SubscriptionFilter → Call Fields × SubscriptionStream
take_honoured s frame (ok f) = (ok frame, record s { honoured = some f })
take_honoured s frame (raise e) = (raise e, s)

abbrev pub acknowledge : SubscriptionStream → Fields → Call Fields × SubscriptionStream
acknowledge s frame =
    let subscription = get subscription_id_key (members (get "_meta" (params_of frame))) in
    if s.acknowledged || is_null subscription
    then (protocol_broken, s)
    else take_honoured (record s { acknowledged = true; subscription_id = subscription }) frame
        (honoured_by s (get "notifications" (params_of frame)))

-- a frame that is no acknowledgement; a method that is a list or a mapping is not hashable
abbrev pub receive : SubscriptionStream → Fields → Json → Call Fields × SubscriptionStream
receive s frame method =
    if not s.acknowledged
    then (protocol_broken, s)
    else if not (is_hashable method)
    then (raise (builtin type_error), s)
    else if not (is_one_of method listen_stream_methods)
        || not (is_one_of method (honoured_methods (honoured_filter s)))
    then (protocol_broken, s)
    else (ok frame, record s { received = s.received ++ frame ∷ [] })

-- `accept`
unfoldable pub accept_frame : SubscriptionStream → Fields → Call Fields × SubscriptionStream
unfolding filter_from_dict honoured_methods
accept_frame s frame =
    let method = get "method" frame in
    if is_text method acknowledged_notification then acknowledge s frame else receive s frame method

-- `hints`
abbrev pub hint_of_frame :
    Fields → List (String × Option ChangeHint) → List (String × Option ChangeHint)
hint_of_frame frame rest =
    if not (is_text (get "method" frame) updated_notification)
    then rest
    else elim (changed_uri frame) [ none ↦ rest | some uri ↦ (uri, parse_hint frame) ∷ rest ]

unfoldable pub hints_in : List Fields → List (String × Option ChangeHint)
unfolding changed_uri parse_hint
hints_in [] = []
hints_in (frame ∷ rest) = hint_of_frame frame (hints_in rest)

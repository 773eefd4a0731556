-- ===== src/Services/Events.antt =====
-- The map from topics of events to prefixes of requests in
-- src/brokerlib/serviceregistry/src/ServiceRegistry.cpp, from the meta-data of services.
use opendxl_broker.Prelude.{
  is_empty, ℕ, Bool, true, false, none, some, List, [], ◌∷◌, ◌&&◌, ◌||◌, not, Str, codes, find,
  assign, ◌==◌, if◌then◌else◌,
}
use opendxl_broker.Topic.Wildcards.{pound_char, plus_char}
use opendxl_broker.Services.Registration.{ServiceRegistration, ServiceEnv}

abbrev pub EventMap : Type 0
EventMap = List (Str × Str)

abbrev event_to_request_topic_prop : Str
event_to_request_topic_prop = codes "eventToRequestTopic"

abbrev pub event_to_request_prefix_prop : Str
event_to_request_prefix_prop = codes "eventToRequestPrefix"

abbrev dxl_broker_event_prefix : Str
dxl_broker_event_prefix = codes "/mcafee/event/dxl/"

-- `strncmp( s, p, strlen( p ) ) == 0`
unfoldable pub starts_with : Str → Str → Bool
starts_with [] s = true
starts_with (c ∷ p) [] = false
starts_with (c ∷ p) (d ∷ s) = c == d && starts_with p s

-- `s.find( c ) != npos`
unfoldable pub has_char : ℕ → Str → Bool
has_char c [] = false
has_char c (d ∷ s) = d == c || has_char c s

-- The topics that the loop leaves out by `continue`.
unfoldable pub is_refused_event : Str → Bool
is_refused_event topic =
    is_empty topic
    || (has_char pound_char topic
        || (has_char plus_char topic || starts_with dxl_broker_event_prefix topic))

-- The loop over the meta-data.
unfoldable pub add_event_topics : Str → List (Str × Str) → EventMap → EventMap
add_event_topics prefix [] events = events
add_event_topics prefix ((key, topic) ∷ meta_data) events = add_event_topics prefix meta_data (
    if starts_with event_to_request_topic_prop key && not (is_refused_event topic)
    then assign topic prefix events
    else events)

unfoldable pub add_event_to_request_prefix : ServiceRegistration → EventMap → EventMap
add_event_to_request_prefix reg events =
    if not reg.service_is_ops && not reg.managed_client
    then events
    else elim (find event_to_request_prefix_prop reg.meta_data) [
      | none ↦ events
      | some prefix ↦ add_event_topics prefix reg.meta_data events
    ]

-- The condition under which a service may have such prefixes.
unfoldable pub may_map_events : ServiceEnv → ServiceRegistration → Bool
may_map_events env reg =
    (not env.multi_tenant || reg.service_is_ops) && (reg.service_is_ops || reg.managed_client)

-- rebuildEventToRequestPrefixMap, behind the clearing of the map.
unfoldable pub rebuild_events :
    ServiceEnv → (ℕ → ServiceRegistration) → List (Str × ℕ) → EventMap → EventMap
rebuild_events env regs [] events = events
rebuild_events env regs ((guid, a) ∷ services) events =
    rebuild_events env regs services
      (if may_map_events env (regs a) then add_event_to_request_prefix (regs a) events else events)

-- The step of doUnregisterService, where the services are those that are left.
unfoldable pub unmap_events :
    ServiceEnv
    → ServiceRegistration
    → (ℕ → ServiceRegistration)
    → List (Str × ℕ)
    → EventMap
    → EventMap
unmap_events env reg regs services events =
    if not env.multi_tenant || reg.service_is_ops
    then elim (find event_to_request_prefix_prop reg.meta_data) [
      | none ↦ events
      | some prefix ↦ rebuild_events env regs services []
    ]
    else events

-- getRequestPrefixForEvent
unfoldable pub get_request_prefix_for_event : Str → EventMap → Str
get_request_prefix_for_event topic events = elim (find topic events) [
  | none ↦ []
  | some prefix ↦ prefix
]

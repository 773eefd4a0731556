-- ===== src/Services/Registry.antt =====
-- ServiceRegistry of src/brokerlib/serviceregistry/src/ServiceRegistry.cpp: its tables. The
-- registrations are a heap; the services by type are a multimap, a list of its entries. The events
-- that are sent to the other brokers are left out, and so is the lock.
pub mod Update
pub mod Topics
pub mod Consistent
pub mod Steps
pub mod Operations
pub mod Recount
use opendxl_broker.Prelude.{
  is_empty, ℕ, ◌+◌, ◌-◌, ◌*◌, leb, ◌%◌, ◌^◌, Bool, true, false, Option, none, some, List, [], ◌∷◌,
  ◌++◌, ◌&&◌, ◌||◌, not, Str, str_eq, has, find, assign, remove, ltb, ◌==◌, if◌then◌else◌,
}
use opendxl_broker.Fabric.State.{add_u32, dec_u32, included}
use opendxl_broker.Services.Registration.{
  ServiceRegistration, ServiceEnv, get_adjusted_ttl_mins, is_service_available, is_service_expired,
}
use opendxl_broker.Services.Topic.{
  Registrations, TopicServices, topic_add_service, topic_remove_service, clear_service_zones,
  topic_next_service,
}
use opendxl_broker.Services.Events.{
  EventMap, add_event_to_request_prefix, may_map_events, unmap_events,
}
use opendxl_broker.Services.Metrics.{Counts, update_tenant_limit_count}

pub record ServiceRegistry : Type 0 where
  pub regs : Registrations
  pub services_by_id : List (Str × ℕ)
  pub services_by_type : List (Str × ℕ)
  pub services_by_topic : List (Str × TopicServices)
  pub local_svc_counter : ℕ
  pub services_per_tenant : Counts
  pub event_to_request_prefix : EventMap
  pub zones_by_node : List (Str × List Str)
  pub ttl_check_time : ℕ
  pub broker_config_changed : Bool

abbrev pub ByTopic : Type 0
ByTopic = List (Str × TopicServices)

-- The services of a topic that was looked up, without any where there is none.
unfoldable pub topic_or_new : Str → Option TopicServices → TopicServices
topic_or_new topic none = record { topic = topic; services = []; services_by_zone = none }
topic_or_new topic (some t) = t

-- The loop over the channels in addService.
unfoldable pub add_to_topics : ℕ → List Str → ByTopic → ByTopic
add_to_topics reg [] by_topic = by_topic
add_to_topics reg (topic ∷ topics) by_topic =
    let t = topic_or_new topic (find topic by_topic) in
    add_to_topics reg topics (assign topic (topic_add_service reg t) by_topic)

unfoldable pub add_service : ℕ → ServiceRegistry → ServiceRegistry
add_service a s =
    let reg = s.regs a in
    record s {
      services_by_id = assign reg.service_guid a s.services_by_id;
      services_by_type = s.services_by_type ++ ((reg.service_type, a) ∷ []);
      services_by_topic = add_to_topics a reg.request_channels s.services_by_topic;
      local_svc_counter =
          if reg.is_local then add_u32 s.local_svc_counter 1 else s.local_svc_counter;
    }

-- A topic after a service was removed from it: it goes when it has no service left.
unfoldable pub put_topic : Str → TopicServices → ByTopic → ByTopic
put_topic topic t by_topic = elim t.services [
  | [] ↦ remove topic by_topic
  | s ∷ services ↦ assign topic t by_topic
]

-- The step for a topic that was looked up.
unfoldable pub remove_from_topic : ℕ → Str → Option TopicServices → ByTopic → ByTopic
remove_from_topic reg topic none by_topic = by_topic
remove_from_topic reg topic (some t) by_topic =
    put_topic topic (topic_remove_service reg t) by_topic

-- The loop over the channels in doUnregisterService.
unfoldable pub remove_from_topics : ℕ → List Str → ByTopic → ByTopic
remove_from_topics reg [] by_topic = by_topic
remove_from_topics reg (topic ∷ topics) by_topic =
    remove_from_topics reg topics (remove_from_topic reg topic (find topic by_topic) by_topic)

-- The loop over the services of a type, which removes the first one with the GUID.
unfoldable pub remove_from_type :
    Registrations → ServiceRegistration → List (Str × ℕ) → List (Str × ℕ)
remove_from_type regs reg [] = []
remove_from_type regs reg ((type, a) ∷ by_type) =
    let rest = remove_from_type regs reg by_type in
    if str_eq type reg.service_type && str_eq (regs a).service_guid reg.service_guid
    then by_type
    else (type, a) ∷ rest

unfoldable pub do_unregister_service : ServiceEnv → ℕ → ServiceRegistry → ServiceRegistry
do_unregister_service env a s =
    let reg = s.regs a in
    let services = remove reg.service_guid s.services_by_id in
    record s {
      services_by_id = services;
      services_by_type = remove_from_type s.regs reg s.services_by_type;
      services_by_topic = remove_from_topics a reg.request_channels s.services_by_topic;
      local_svc_counter = if reg.is_local then dec_u32 s.local_svc_counter else s.local_svc_counter;
      event_to_request_prefix = unmap_events env reg s.regs services s.event_to_request_prefix;
    }

-- updateTenantServiceCount, for a service in an environment of tenants that is no service of them all.
unfoldable pub count_service :
    ServiceEnv → ℕ → Bool → ServiceRegistration → ServiceRegistry → ServiceRegistry
count_service env limit is_up reg s =
    if env.multi_tenant && not reg.service_is_ops
    then record s {
      services_per_tenant =
          (update_tenant_limit_count reg.client_tenant_guid is_up limit s.services_per_tenant).1;
    }
    else s

-- unregisterService, by the GUID alone.
unfoldable pub unregister_service : ServiceEnv → ℕ → Str → ServiceRegistry → ServiceRegistry
unregister_service env limit guid s = elim (find guid s.services_by_id) [
  | none ↦ s
  | some a ↦ count_service env limit false (s.regs a) (do_unregister_service env a s)
]

-- unregisterService, where the GUIDs of the client and its tenant must match.
unfoldable pub unregister_service_of :
    ServiceEnv → Str → Str → Str → ServiceRegistry → ServiceRegistry
unregister_service_of env guid client_guid tenant_guid s = elim (find guid s.services_by_id) [
  | none ↦ s
  | some a ↦
      if str_eq client_guid (s.regs a).client_guid
        && str_eq tenant_guid (s.regs a).client_tenant_guid
      then do_unregister_service env a s
      else s
]

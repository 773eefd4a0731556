-- ===== src/Services/Registry/Update.antt =====
-- ServiceRegistry of src/brokerlib/serviceregistry/src/ServiceRegistry.cpp: registering and updating
-- services, the next service for a topic, and the maintenance.
use opendxl_broker.Prelude.{
  ◌+◌, is_empty, ℕ, ◌*◌, leb, Bool, true, false, Option, none, some, List, [], ◌∷◌, ◌&&◌, not, Str,
  str_eq, find, assign, ltb, ◌==◌, if◌then◌else◌,
}
use opendxl_broker.Fabric.State.{included}
use opendxl_broker.Services.Registration.{
  ServiceRegistration, ServiceEnv, get_adjusted_ttl_mins, is_service_available, is_service_expired,
}
use opendxl_broker.Services.Topic.{Registrations, clear_service_zones, topic_next_service}
use opendxl_broker.Services.Events.{add_event_to_request_prefix, may_map_events}
use opendxl_broker.Services.Registry.{
  ServiceRegistry, ByTopic, add_service, unregister_service, count_service,
}

unfoldable pub same_set : List Str → List Str → Bool
same_set xs ys = included xs ys && included ys xs

-- Each entry of the first is in the second.
unfoldable pub map_included : List (Str × Str) → List (Str × Str) → Bool
map_included [] m = true
map_included ((k, v) ∷ l) m = elim (find k m) [
  | none ↦ false
  | some w ↦ str_eq v w && map_included l m
]

-- getClientInstanceGuid
unfoldable pub instance_guid : ServiceRegistration → Str
instance_guid reg = elim reg.client_instance_guid [ [] ↦ reg.client_guid | c ∷ cs ↦ c ∷ cs ]

-- The comparison in updateService.
unfoldable pub is_same_service : ServiceRegistration → ServiceRegistration → Bool
is_same_service old new =
    same_set old.request_channels new.request_channels
    && (str_eq old.broker_guid new.broker_guid
        && (str_eq old.client_guid new.client_guid
            && (str_eq (instance_guid old) (instance_guid new)
                && (str_eq old.service_type new.service_type
                    && ((map_included old.meta_data new.meta_data
                          && map_included new.meta_data old.meta_data)
                        && (same_set old.target_tenant_guids new.target_tenant_guids
                            && ((if old.managed_client
                                  then new.managed_client
                                  else not new.managed_client)
                                && same_set old.certificates new.certificates)))))))

-- The existing registration with the TTL, the meta-data and the registration time of the new one.
unfoldable pub renew : ℕ → ServiceRegistration → Registrations → Registrations
renew old reg regs a =
    if a == old
    then record (regs a) {
      ttl_mins = reg.ttl_mins;
      meta_data = reg.meta_data;
      reg_time = reg.reg_time;
    }
    else regs a

unfoldable pub update_service : ServiceEnv → ℕ → ℕ → ℕ → ℕ → ServiceRegistry → ServiceRegistry
update_service env limit current old new s =
    if not (str_eq (s.regs old).broker_guid (s.regs new).broker_guid)
      && ltb (s.regs new).ttl_mins (get_adjusted_ttl_mins current (s.regs old))
    then s
    else (if is_same_service (s.regs old) (s.regs new)
        then record s { regs = renew old (s.regs new) s.regs }
        else add_service new (unregister_service env limit (s.regs new).service_guid s))

-- The services before the count of the tenant: `none` is an exception.
unfoldable pub register_or_update :
    ServiceEnv → ℕ → ℕ → ℕ → ServiceRegistry → Option ServiceRegistry
register_or_update env limit current new s =
    elim (find (s.regs new).service_guid s.services_by_id) [
      | none ↦ some (add_service new s)
      | some old ↦
          if str_eq (s.regs new).client_guid (s.regs old).client_guid
            && str_eq (s.regs new).client_tenant_guid (s.regs old).client_tenant_guid
          then some (update_service env limit current old new s)
          else none
    ]

-- The events of a service that was registered.
unfoldable pub map_events : ServiceEnv → ServiceRegistration → ServiceRegistry → ServiceRegistry
map_events env reg s = record s {
  event_to_request_prefix =
      if may_map_events env reg
      then add_event_to_request_prefix reg s.event_to_request_prefix
      else s.event_to_request_prefix;
}

unfoldable pub count_registered :
    ServiceEnv → ℕ → ServiceRegistration → Option ServiceRegistry → Option ServiceRegistry
count_registered env limit reg none = none
count_registered env limit reg (some s) =
    some (count_service env limit true reg (map_events env reg s))

unfoldable pub register_service : ServiceEnv → ℕ → ℕ → ℕ → ServiceRegistry → Option ServiceRegistry
register_service env limit current new s =
    if is_empty (s.regs new).service_guid
    then none
    else count_registered env limit (s.regs new) (register_or_update env limit current new s)

-- checkServiceTtls, the walk over the services by id.
unfoldable pub check_ttls : ServiceEnv → ℕ → ℕ → List (Str × ℕ) → ServiceRegistry → ServiceRegistry
check_ttls env limit current [] s = s
check_ttls env limit current ((guid, a) ∷ services) s =
    check_ttls env limit current services
      (if is_service_expired env current (s.regs a) then unregister_service env limit guid s else s)

unfoldable pub find_service : ServiceEnv → Str → Str → ServiceRegistry → Option ℕ
find_service env guid tenant_guid s = elim (find guid s.services_by_id) [
  | none ↦ none
  | some a ↦ if is_service_available env tenant_guid (s.regs a) then some a else none
]

-- getNextService: the topic keeps its zones and their iterators.
unfoldable pub get_next_service :
    ServiceEnv → ℕ → Str → Str → ServiceRegistry → Option ℕ × ServiceRegistry
get_next_service env current topic tenant_guid s = elim (find topic s.services_by_topic) [
  | none ↦ (none, s)
  | some t ↦
      let found = topic_next_service s.regs env s.zones_by_node current tenant_guid t in
      (found.0, record s { services_by_topic = assign topic found.1 s.services_by_topic })
]

-- onConfigurationUpdated, with the zones of the new configuration.
unfoldable pub on_configuration_updated : List (Str × List Str) → ServiceRegistry → ServiceRegistry
on_configuration_updated zones s = record s { zones_by_node = zones; broker_config_changed = true }

-- The loop in clearServiceZones.
unfoldable pub clear_topics : ByTopic → ByTopic
clear_topics [] = []
clear_topics ((topic, t) ∷ by_topic) = (topic, clear_service_zones t) ∷ clear_topics by_topic

-- onCoreMaintenance, with the interval of the checks in minutes; the difference of the times, which
-- may be negative, stands as a sum on the other side.
unfoldable pub on_core_maintenance : ServiceEnv → ℕ → ℕ → ℕ → ServiceRegistry → ServiceRegistry
on_core_maintenance env limit interval time s =
    let checked =
      if leb (s.ttl_check_time + interval * 60) time
      then check_ttls env limit time s.services_by_id (record s { ttl_check_time = time })
      else s in
    if checked.broker_config_changed
    then record checked {
      broker_config_changed = false;
      services_by_topic = clear_topics checked.services_by_topic;
    }
    else checked

-- ===== src/Services/Registry/Operations.antt =====
-- Every operation on the registry of services keeps its tables in agreement.
use opendxl_broker.Prelude.{
  ◌+◌, is_empty, ◌*◌, leb, if◌then◌else◌, ℕ, refl, ◌∙◌, inl, inr, true, false, Option, none, some,
  List, [], ◌∷◌, Str, find, if_intro, Option-cases,
}
use opendxl_broker.Services.Registration.{ServiceRegistration, ServiceEnv, is_service_expired}
use opendxl_broker.Services.Topic.{topic_next_service}
use opendxl_broker.Services.Registry.{ServiceRegistry, unregister_service, unregister_service_of}
use opendxl_broker.Services.Registry.Update.{
  update_service, register_or_update, map_events, count_registered, register_service, check_ttls,
  get_next_service, clear_topics, on_core_maintenance,
}
use opendxl_broker.Services.Registry.Topics.{topic_holds-same, topic_holds-clear_topics}
use opendxl_broker.Services.Registry.Consistent.{Consistent, is_in_use, add_service-Consistent}
use opendxl_broker.Services.Registry.Steps.{
  count_service-Consistent, unregister_service-Consistent, unregister_service_of-Consistent,
  update_service-Consistent,
}

-- No exception, and then agreement.
abbrev pub MayFail : Option ServiceRegistry → Type 0
MayFail none = Unit
MayFail (some s) = Consistent s

register_or_update-Consistent :
    (env : ServiceEnv) (limit current new : ℕ) (s : ServiceRegistry)
    → Consistent s
    → MayFail (register_or_update env limit current new s)
unfolding register_or_update
register_or_update-Consistent env limit current new s c =
    elim (Option-cases (find (s.regs new).service_guid s.services_by_id)) [
      | inl e ↦ rw (e, register_or_update) (add_service-Consistent new s c e)
      | inr (old, e) ↦
          rw (e, register_or_update)
            (if_intro MayFail _ (some (update_service env limit current old new s)) none
              (λ _. update_service-Consistent env limit current old new s c e) (λ _. tt))
    ]

map_events-Consistent :
    (env : ServiceEnv) (reg : ServiceRegistration) (s : ServiceRegistry)
    → Consistent s
    → Consistent (map_events env reg s)
unfolding map_events is_in_use
map_events-Consistent env reg s c = c

counted-MayFail :
    (env : ServiceEnv) (limit : ℕ) (reg : ServiceRegistration) (o : Option ServiceRegistry)
    → MayFail o
    → MayFail (count_registered env limit reg o)
unfolding count_registered
counted-MayFail env limit reg none c = tt
counted-MayFail env limit reg (some s) c =
    count_service-Consistent env limit true reg (map_events env reg s)
      (map_events-Consistent env reg s c)

register_service-Consistent :
    (env : ServiceEnv) (limit current new : ℕ) (s : ServiceRegistry)
    → Consistent s
    → MayFail (register_service env limit current new s)
unfolding register_service
register_service-Consistent env limit current new s c =
    if_intro MayFail (is_empty (s.regs new).service_guid) none _ (λ _. tt)
      (λ _.
        counted-MayFail env limit (s.regs new) (register_or_update env limit current new s)
          (register_or_update-Consistent env limit current new s c))

check_ttls-Consistent :
    (env : ServiceEnv) (limit current : ℕ) (services : List (Str × ℕ)) (s : ServiceRegistry)
    → Consistent s
    → Consistent (check_ttls env limit current services s)
unfolding check_ttls
check_ttls-Consistent env limit current [] s c = c
check_ttls-Consistent env limit current ((guid, a) ∷ services) s c =
    check_ttls-Consistent env limit current services _ (
      if_intro Consistent (is_service_expired env current (s.regs a))
        (unregister_service env limit guid s) s
        (λ _. unregister_service-Consistent env limit guid s c) (λ _. c))

get_next_service-Consistent :
    (env : ServiceEnv) (current : ℕ) (topic tenant : Str) (s : ServiceRegistry)
    → Consistent s
    → Consistent (get_next_service env current topic tenant s).1
unfolding get_next_service topic_next_service is_in_use
get_next_service-Consistent env current topic tenant s c =
    elim (Option-cases (find topic s.services_by_topic)) [
      | inl e ↦ rw (e, get_next_service) c
      | inr (t, e) ↦
          let new = (topic_next_service s.regs env s.zones_by_node current tenant t).1 in
          rw (e, get_next_service)
            (
              c.0,
              λ topic' a.
                  topic_holds-same topic' topic a t new s.services_by_topic e refl ∙ c.1 topic' a,
            )
    ]

on_core_maintenance-Consistent :
    (env : ServiceEnv) (limit interval time : ℕ) (s : ServiceRegistry)
    → Consistent s
    → Consistent (on_core_maintenance env limit interval time s)
unfolding on_core_maintenance is_in_use
on_core_maintenance-Consistent env limit interval time s c =
    let late = leb (s.ttl_check_time + interval * 60) time in
    let timed = record s { ttl_check_time = time } in
    let checked = if late then check_ttls env limit time s.services_by_id timed else s in
    let kept : Consistent checked =
      if_intro Consistent late (check_ttls env limit time s.services_by_id timed) s
        (λ _. check_ttls-Consistent env limit time s.services_by_id timed c) (λ _. c) in
    if_intro Consistent checked.broker_config_changed
      (record checked {
        broker_config_changed = false;
        services_by_topic = clear_topics checked.services_by_topic;
      })
      checked
      (λ _. (
        kept.0,
        λ topic a. topic_holds-clear_topics topic a checked.services_by_topic ∙ kept.1 topic a,
      ))
      (λ _. kept)

-- For a registry of services where the GUIDs by id are those of the registrations, and a topic has
-- just the services in use that have it among their channels: this also holds after
-- registerService, where it does not throw, after both forms of unregisterService, after
-- getNextService of any topic, and after onCoreMaintenance at any time, which checks the TTLs and
-- clears the zones.
pub service_registry-Consistent :
    (env : ServiceEnv) (limit interval current new : ℕ) (guid client tenant topic : Str)
    (s : ServiceRegistry)
    → Consistent s
    → MayFail (register_service env limit current new s)
      × Consistent (unregister_service env limit guid s)
      × Consistent (unregister_service_of env guid client tenant s)
      × Consistent (get_next_service env current topic tenant s).1
      × Consistent (on_core_maintenance env limit interval current s)
service_registry-Consistent env limit interval current new guid client tenant topic s c = (
  register_service-Consistent env limit current new s c,
  unregister_service-Consistent env limit guid s c,
  unregister_service_of-Consistent env guid client tenant s c,
  get_next_service-Consistent env current topic tenant s c,
  on_core_maintenance-Consistent env limit interval current s c,
)

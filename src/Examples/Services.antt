-- ===== src/Examples/Services.antt =====
-- The services of zones and topics at concrete inputs.
use opendxl_broker.Prelude.{
  is_empty, ℕ, refl, Bool, true, false, none, List, [], ◌∷◌, Str, codes, ltb, ◌==◌, if◌then◌else◌,
  find, has, str_eq, ◌&&◌, ◌≡◌, some, arith,
}
use opendxl_broker.Services.Registration.{ServiceRegistration, ServiceEnv, is_eligible}
use opendxl_broker.Services.Topic.{TopicServices, topic_next_service}
use opendxl_broker.Services.Topic.Cover.{holds}
use opendxl_broker.Services.Topic.Answer.{Answer}
use opendxl_broker.Services.Topic.Next.{Zoned, topic_next_service_correct}
use opendxl_broker.Fabric.State.{included}
use opendxl_broker.Services.Registry.{
  ServiceRegistry, add_service, unregister_service, unregister_service_of,
}
use opendxl_broker.Services.Registry.Update.{
  register_service, get_next_service, on_core_maintenance, is_same_service, same_set, map_included,
  instance_guid,
}
use opendxl_broker.Services.Registry.Topics.{topic_holds, holds_in}
use opendxl_broker.Services.Registry.Consistent.{
  Consistent, is_in_use, is_at, add_service-Consistent,
}
use opendxl_broker.Services.Registry.Operations.{MayFail, service_registry-Consistent}
use opendxl_broker.Services.Registry.Recount.{register_service_recounts}
use opendxl_broker.Services.Zone.{ZoneServices, zone_calls}
use opendxl_broker.Services.Zone.Fair.{Answered, zone_calls-fair}

-- Three services, of which the last was the last to be called.
abbrev zone : ZoneServices
zone = record {
  zone = codes "z";
  topic = codes "t";
  services = 1 ∷ 4 ∷ 6 ∷ [];
  next_service_iter = 3;
}

abbrev above_two : ℕ → Bool
above_two reg = ltb 2 reg

zone_calls-fair_example : Answered 6 (zone_calls above_two 3 zone)
zone_calls-fair_example = zone_calls-fair above_two zone 2 6 (omega arith) refl refl

-- A service of a broker, and one that is known to another broker of the zone.
abbrev registration : ℕ → ServiceRegistration
registration a = record {
  service_type = codes "type";
  service_guid = codes "guid";
  client_guid = codes "client";
  client_instance_guid = [];
  broker_guid = if a == 1 then codes "x" else codes "y";
  ttl_mins = 60;
  request_channels = codes "t" ∷ [];
  meta_data = [];
  is_local = a == 1;
  reg_time = 100;
  broker_service = a == 1;
  client_tenant_guid = [];
  service_is_ops = false;
  target_tenant_guids = [];
  certificates = [];
  managed_client = true;
}

abbrev env : ServiceEnv
env = record {
  guid = codes "x";
  tenant_guid = codes "tenant";
  multi_tenant = false;
  grace_period_mins = 10;
  is_reachable = λ id. true;
  is_client_authorized = λ client topic. true;
  are_certs_authorized = λ certs topic. false;
}

abbrev nodes : List (Str × List Str)
nodes = (codes "x", codes "here" ∷ []) ∷ (codes "y", codes "here" ∷ []) ∷ []

abbrev topic_services : TopicServices
topic_services = record { topic = codes "t"; services = 1 ∷ 4 ∷ 6 ∷ []; services_by_zone = none }

topic_next_service_correct_example :
    let call = topic_next_service registration env nodes 500 [] topic_services in
    Zoned (λ s. s == 1) call.1.services call.1.services_by_zone
    × Answer
        (λ s. is_eligible env 500 [] (codes "t") (registration s))
        (λ s. s == 1)
        (λ p. holds p (1 ∷ 4 ∷ 6 ∷ []))
        call.0
topic_next_service_correct_example =
    topic_next_service_correct registration env nodes 500 [] topic_services tt

-- The registry with one service, and a registration of the same service again.
abbrev no_services : ServiceRegistry
no_services = record {
  regs = registration;
  services_by_id = [];
  services_by_type = [];
  services_by_topic = [];
  local_svc_counter = 0;
  services_per_tenant = (codes "tenant", 1) ∷ [];
  event_to_request_prefix = [];
  zones_by_node = nodes;
  ttl_check_time = 0;
  broker_config_changed = true;
}

no_services-Consistent : Consistent no_services
unfolding find topic_holds holds_in is_in_use is_at
no_services-Consistent = ((λ guid a e. cc), λ topic a. and_false _)
  where
    and_false : (b : Bool) → false ≡ (b && false)
    and_false b = ground arith

abbrev one_service : ServiceRegistry
one_service = add_service 4 no_services

one_service-Consistent : Consistent one_service
unfolding find
one_service-Consistent = add_service-Consistent 4 no_services no_services-Consistent refl

service_registry-Consistent_example :
    MayFail (register_service env 10 500 6 one_service)
    × Consistent (unregister_service env 10 (codes "guid") one_service)
    × Consistent (unregister_service_of env (codes "guid") (codes "client") [] one_service)
    × Consistent (get_next_service env 500 (codes "t") [] one_service).1
    × Consistent (on_core_maintenance env 10 5 500 one_service)
unfolding add_service
service_registry-Consistent_example =
    service_registry-Consistent env 10 5 500 6 (codes "guid") (codes "client") [] (codes "t")
      one_service one_service-Consistent

abbrev tenant_env : ServiceEnv
tenant_env = record env { multi_tenant = true }

abbrev tenant_service : ServiceRegistry
tenant_service = record no_services {
  regs = λ a. record (registration a) { client_tenant_guid = codes "tenant" };
  services_by_id = (codes "guid", 4) ∷ [];
}

register_service_recounts_example :
    (s : ServiceRegistry) × (register_service tenant_env 10 500 6 tenant_service ≡ some s)
    × (s.services_by_id ≡ tenant_service.services_by_id)
    × (find (codes "tenant") s.services_per_tenant ≡ some 2)
unfolding find is_empty str_eq is_same_service same_set included map_included instance_guid has
register_service_recounts_example =
    register_service_recounts tenant_env 10 500 4 6 1 tenant_service refl refl refl refl refl refl
      refl refl refl (omega arith)

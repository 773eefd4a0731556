-- ===== src/Services/Topic.antt =====
-- TopicServices of src/brokerlib/serviceregistry/src/TopicServices.cpp: the services of a topic, which
-- are put into zones before the first request. The registrations are a heap.
pub mod Cover
pub mod Order
pub mod Answer
pub mod Next
use opendxl_broker.Prelude.{
  ℕ, Bool, true, false, Option, none, some, List, [], ◌∷◌, ◌++◌, not, Str, codes, has, find,
  if◌then◌else◌,
}
use opendxl_broker.Services.Registration.{ServiceRegistration, ServiceEnv, is_eligible}
use opendxl_broker.Services.Zone.{
  ZoneServices, insert_service, erase_service, new_zone, zone_add_service, zone_next_service,
}

abbrev pub Registrations : Type 0
Registrations = ℕ → ServiceRegistration

-- `none` for `m_servicesByZone` is the pointer without a vector.
pub record TopicServices : Type 0 where
  pub topic : Str
  pub services : List ℕ
  pub services_by_zone : Option (List ZoneServices)

unfoldable pub clear_service_zones : TopicServices → TopicServices
clear_service_zones t = record t { services_by_zone = none }

unfoldable pub topic_add_service : ℕ → TopicServices → TopicServices
topic_add_service reg t =
    clear_service_zones (record t { services = insert_service reg t.services })

unfoldable pub topic_remove_service : ℕ → TopicServices → TopicServices
topic_remove_service reg t =
    clear_service_zones (record t { services = erase_service reg t.services })

-- The walk over the remaining services: those that pass a test, and those that stay.
unfoldable pub take_out : (ℕ → Bool) → List ℕ → List ℕ × List ℕ
take_out test [] = ([], [])
take_out test (s ∷ services) =
    let rest = take_out test services in
    if test s then (s ∷ rest.0, rest.1) else (rest.0, s ∷ rest.1)

unfoldable pub add_services : List ℕ → ZoneServices → ZoneServices
add_services [] z = z
add_services (s ∷ services) z = add_services services (zone_add_service s z)

-- A zone with some services, and no zone where there are none.
unfoldable pub zone_of : Str → Str → List ℕ → List ZoneServices
zone_of zone topic [] = []
zone_of zone topic (s ∷ services) = add_services (s ∷ services) (new_zone zone topic) ∷ []

unfoldable pub in_zone : Registrations → List (Str × List Str) → Str → ℕ → Bool
in_zone regs zones_by_node zone s = elim (find (regs s).broker_guid zones_by_node) [
  | none ↦ false
  | some service_broker_zones ↦ has zone service_broker_zones
]

-- The walk over the local broker's zones, and what remains behind it.
unfoldable pub zones_loop :
    Registrations → List (Str × List Str) → Str → List Str → List ℕ → List ZoneServices × List ℕ
zones_loop regs zones_by_node topic [] services = ([], services)
zones_loop regs zones_by_node topic (zone ∷ zones) services =
    let found = take_out (in_zone regs zones_by_node zone) services in
    let rest = zones_loop regs zones_by_node topic zones found.1 in
    (zone_of zone topic found.0 ++ rest.0, rest.1)

-- The zones of the local broker.
unfoldable pub local_zones : Str → List (Str × List Str) → List Str
local_zones guid zones_by_node = elim (find guid zones_by_node) [ none ↦ [] | some zones ↦ zones ]

unfoldable pub calculate_service_zones :
    Registrations → Str → List (Str × List Str) → Str → List ℕ → List ZoneServices
calculate_service_zones regs guid zones_by_node topic services =
    let broker_services = take_out (λ s. (regs s).broker_service) services in
    let by_zone =
      zones_loop regs zones_by_node topic (local_zones guid zones_by_node) broker_services.1 in
    zone_of (codes "(local)") topic broker_services.0 ++ (by_zone.0 ++ zone_of [] topic by_zone.1)

-- The search by zone.
unfoldable pub next_in_zones : (ℕ → Bool) → List ZoneServices → Option ℕ × List ZoneServices
next_in_zones test [] = (none, [])
next_in_zones test (z ∷ zones) =
    let found = zone_next_service test z in
    let rest = next_in_zones test zones in
    elim found.0 [ none ↦ (rest.0, found.1 ∷ rest.1) | some ptr ↦ (some ptr, found.1 ∷ zones) ]

-- The zones that are there, and new ones where there are none.
unfoldable pub zones_or : List ZoneServices → Option (List ZoneServices) → List ZoneServices
zones_or new_zones none = new_zones
zones_or new_zones (some zones) = zones

-- TopicServices::getNextService at a time, for a tenant.
unfoldable pub topic_next_service :
    Registrations
    → ServiceEnv
    → List (Str × List Str)
    → ℕ
    → Str
    → TopicServices
    → Option ℕ × TopicServices
topic_next_service regs env zones_by_node current tenant_guid t =
    let new_zones = calculate_service_zones regs env.guid zones_by_node t.topic t.services in
    let zones = zones_or new_zones t.services_by_zone in
    let found = next_in_zones (λ s. is_eligible env current tenant_guid t.topic (regs s)) zones in
    (found.0, record t { services_by_zone = some found.1 })

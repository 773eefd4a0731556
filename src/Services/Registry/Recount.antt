-- ===== src/Services/Registry/Recount.antt =====
-- The count of the services of a tenant when a service is registered again.
use opendxl_broker.Prelude.{
  is_empty, ℕ, ◌+◌, ◌<◌, ◌≡◌, refl, ap, ◌∙◌, true, false, some, Str, str_eq, str_eq_refl, find,
  find-assign, ◌==◌, arith,
}
use opendxl_broker.Services.Registration.{ServiceEnv}
use opendxl_broker.Services.Metrics.{Counts, adjust, update_tenant_limit_count}
use opendxl_broker.Services.Registry.{ServiceRegistry, count_service}
use opendxl_broker.Services.Registry.Update.{
  renew, is_same_service, update_service, register_or_update, map_events, count_registered,
  register_service,
}

adjusted : (limit n : ℕ) → n < limit → adjust true limit n ≡ n + 1
unfolding adjust
adjusted limit n h = ground arith

counted_up :
    (tenant : Str) (limit n : ℕ) (counts : Counts)
    → find tenant counts ≡ some n
    → n < limit
    → find tenant (update_tenant_limit_count tenant true limit counts).1 ≡ some (n + 1)
unfolding update_tenant_limit_count
counted_up tenant limit n counts e h =
    rw (none_is_zero, e)
      (find-assign tenant tenant (adjust true limit n) counts
        ∙ rw (str_eq_refl tenant) (ap some (adjusted limit n h)))
  where
    none_is_zero : (limit == 0) ≡ false
    none_is_zero = ground (arith, h)

-- For several tenants, a registration with a GUID, of a tenant whose count is below the limit, of a
-- service that is registered by the same client with the same properties: registerService leaves
-- the services by id as they are, but the count of the services of the tenant is one higher.
pub register_service_recounts :
    (env : ServiceEnv) (limit current old new n : ℕ) (s : ServiceRegistry)
    → let reg = s.regs new in
      env.multi_tenant ≡ true
      → reg.service_is_ops ≡ false
      → is_empty reg.service_guid ≡ false
      → find reg.service_guid s.services_by_id ≡ some old
      → str_eq reg.client_guid (s.regs old).client_guid ≡ true
      → str_eq reg.client_tenant_guid (s.regs old).client_tenant_guid ≡ true
      → str_eq (s.regs old).broker_guid reg.broker_guid ≡ true
      → is_same_service (s.regs old) reg ≡ true
      → find reg.client_tenant_guid s.services_per_tenant ≡ some n
      → n < limit
      → (s' : ServiceRegistry) × (register_service env limit current new s ≡ some s')
        × (s'.services_by_id ≡ s.services_by_id)
        × (find reg.client_tenant_guid s'.services_per_tenant ≡ some (n + 1))
unfolding register_service count_registered map_events count_service update_service
    register_or_update
register_service_recounts env limit current old new n s multi ops named found client tenant broker
      same count small =
    let reg = s.regs new in
    let renewed = record s { regs = renew old reg s.regs } in
    (
      count_service env limit true reg (map_events env reg renewed),
      rw (named, found, register_or_update, client, tenant, broker, same) refl,
      rw (multi, ops) refl,
      rw (multi, ops) (counted_up reg.client_tenant_guid limit n s.services_per_tenant count small),
    )

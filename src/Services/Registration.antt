-- ===== src/Services/Registration.antt =====
-- ServiceRegistration of src/brokerlib/serviceregistry/src/ServiceRegistration.cpp. Its table of
-- hashes holds the certificates. Times are in seconds, and not before that of the registration.
use opendxl_broker.Prelude.{
  ℕ, ◌+◌, ◌-◌, ◌*◌, ◌/◌, ◌%◌, ◌^◌, Bool, true, List, [], ◌∷◌, ◌&&◌, ◌||◌, not, Str, str_eq, has,
  ltb, if◌then◌else◌,
}

pub record ServiceRegistration : Type 0 where
  pub service_type : Str
  pub service_guid : Str
  pub client_guid : Str
  pub client_instance_guid : Str
  pub broker_guid : Str
  pub ttl_mins : ℕ
  pub request_channels : List Str
  pub meta_data : List (Str × Str)
  pub is_local : Bool
  pub reg_time : ℕ
  pub broker_service : Bool
  pub client_tenant_guid : Str
  pub service_is_ops : Bool
  pub target_tenant_guids : List Str
  pub certificates : List Str
  pub managed_client : Bool

-- What is read of BrokerSettings, and the answers of the other components: whether getNextBroker has
-- a way from the local broker to another, and the two forms of isAuthorizedToSubscribe.
pub record ServiceEnv : Type 0 where
  pub guid : Str
  pub tenant_guid : Str
  pub multi_tenant : Bool
  pub grace_period_mins : ℕ
  pub is_reachable : Str → Bool
  pub is_client_authorized : Str → Str → Bool
  pub are_certs_authorized : List Str → Str → Bool

-- isExpired, with the product in 32 bits.
unfoldable pub is_service_expired : ServiceEnv → ℕ → ServiceRegistration → Bool
is_service_expired env current reg =
    ltb ((((reg.ttl_mins + env.grace_period_mins) % 2 ^ 32) * 60) % 2 ^ 32) (current - reg.reg_time)

-- The difference as a signed number of 32 bits, and 0 where it is not positive.
unfoldable pub get_adjusted_ttl_mins : ℕ → ServiceRegistration → ℕ
get_adjusted_ttl_mins time reg =
    let min_diff = (time - reg.reg_time + 30) / 60 in
    let ttl_diff = (reg.ttl_mins + (2 ^ 32 - min_diff % 2 ^ 32)) % 2 ^ 32 in
    if ltb ttl_diff (2 ^ 31) then ttl_diff else 0

unfoldable pub reset_registration_time : ℕ → ServiceRegistration → ServiceRegistration
reset_registration_time current reg = record reg {
  ttl_mins = get_adjusted_ttl_mins current reg;
  reg_time = current;
}

unfoldable pub is_service_available : ServiceEnv → Str → ServiceRegistration → Bool
is_service_available env tenant_guid reg =
    if not env.multi_tenant
    then true
    else (if reg.service_is_ops
        then elim reg.target_tenant_guids [
          | [] ↦ true
          | guid ∷ guids ↦ has tenant_guid (guid ∷ guids)
        ]
        else str_eq reg.client_tenant_guid tenant_guid)

-- The four conditions on a service in ZoneServices::getNextService.
unfoldable pub is_eligible : ServiceEnv → ℕ → Str → Str → ServiceRegistration → Bool
is_eligible env current tenant_guid topic reg =
    (reg.is_local || env.is_reachable reg.broker_guid)
    && (not (is_service_expired env current reg)
        && ((if reg.managed_client
              then env.is_client_authorized reg.client_guid topic
              else env.are_certs_authorized reg.certificates topic)
            && is_service_available env tenant_guid reg))

-- ===== src/Services/Registry/Steps.antt =====
-- The steps of registering and unregistering services keep the tables in agreement.
use opendxl_broker.Prelude.{
  ℕ, ◌≡◌, refl, sym, ap, ap₂, subst, ◌∙◌, inl, inr, Bool, false, none, some, ◌&&◌, not, Str, str_eq,
  str_eq_refl, has, find, find-remove, ◌==◌, if_intro, Bool-cases, Option-cases,
}
use opendxl_broker.Services.Registration.{ServiceRegistration, ServiceEnv}
use opendxl_broker.Services.Topic.{Registrations}
use opendxl_broker.Services.Registry.{
  ServiceRegistry, do_unregister_service, count_service, unregister_service, unregister_service_of,
}
use opendxl_broker.Services.Registry.Update.{renew, is_same_service, update_service}
use opendxl_broker.Services.Registry.Consistent.{
  Consistent, is_at, is_in_use, add_service-Consistent, do_unregister_service-Consistent,
}

-- A service that is found by its id.
found-Consistent :
    (env : ServiceEnv) (guid : Str) (a : ℕ) (s : ServiceRegistry)
    → Consistent s
    → find guid s.services_by_id ≡ some a
    → Consistent (do_unregister_service env a s)
found-Consistent env guid a s c e =
    do_unregister_service-Consistent env a s c
      (subst (λ g. find g s.services_by_id ≡ some a) (sym (c.0 guid a e)) e)

pub count_service-Consistent :
    (env : ServiceEnv) (limit : ℕ) (is_up : Bool) (reg : ServiceRegistration) (s : ServiceRegistry)
    → Consistent s
    → Consistent (count_service env limit is_up reg s)
unfolding count_service is_in_use
count_service-Consistent env limit is_up reg s c =
    elim (Bool-cases (env.multi_tenant && not reg.service_is_ops)) [
      | inl e ↦ rw e c
      | inr e ↦ rw e c
    ]

pub unregister_service-Consistent :
    (env : ServiceEnv) (limit : ℕ) (guid : Str) (s : ServiceRegistry)
    → Consistent s
    → Consistent (unregister_service env limit guid s)
unfolding unregister_service
unregister_service-Consistent env limit guid s c =
    elim (Option-cases (find guid s.services_by_id)) [
      | inl e ↦ subst Consistent (sym (rw (e, unregister_service) refl)) c
      | inr (a, e) ↦ subst Consistent (sym (rw (e, unregister_service) refl)) (
          count_service-Consistent env limit false (s.regs a) (do_unregister_service env a s)
            (found-Consistent env guid a s c e))
    ]

pub unregister_service_of-Consistent :
    (env : ServiceEnv) (guid client tenant : Str) (s : ServiceRegistry)
    → Consistent s
    → Consistent (unregister_service_of env guid client tenant s)
unfolding unregister_service_of
unregister_service_of-Consistent env guid client tenant s c =
    elim (Option-cases (find guid s.services_by_id)) [
      | inl e ↦ subst Consistent (sym (rw (e, unregister_service_of) refl)) c
      | inr (a, e) ↦
          rw (e, unregister_service_of)
            (if_intro Consistent
              (str_eq client (s.regs a).client_guid && str_eq tenant (s.regs a).client_tenant_guid)
              (do_unregister_service env a s) s (λ _. found-Consistent env guid a s c e) (λ _. c))
    ]

-- The GUID and the channels of a registration stay.
renew-same :
    (old : ℕ) (reg : ServiceRegistration) (regs : Registrations) (a : ℕ)
    → ((renew old reg regs a).service_guid ≡ (regs a).service_guid)
      × ((renew old reg regs a).request_channels ≡ (regs a).request_channels)
unfolding renew
renew-same old reg regs a = elim (Bool-cases (a == old)) [
  | inl e ↦ rw e (refl, refl)
  | inr e ↦ rw e (refl, refl)
]

renew-Consistent :
    (old : ℕ) (reg : ServiceRegistration) (s : ServiceRegistry)
    → Consistent s
    → Consistent (record s { regs = renew old reg s.regs })
unfolding is_in_use
renew-Consistent old reg s (ids, topics) = (
  (λ guid a e. (renew-same old reg s.regs a).0 ∙ ids guid a e),
  λ topic a.
      topics topic a
      ∙ ap₂ ◌&&◌ (ap (has topic) (sym (renew-same old reg s.regs a).1))
          (ap (λ g. is_at a (find g s.services_by_id)) (sym (renew-same old reg s.regs a).0)),
)

count_service-same :
    (env : ServiceEnv) (limit : ℕ) (is_up : Bool) (reg : ServiceRegistration) (s : ServiceRegistry)
    → ((count_service env limit is_up reg s).services_by_id ≡ s.services_by_id)
      × ((count_service env limit is_up reg s).regs ≡ s.regs)
unfolding count_service
count_service-same env limit is_up reg s =
    elim (Bool-cases (env.multi_tenant && not reg.service_is_ops)) [
      | inl e ↦ rw e (refl, refl)
      | inr e ↦ rw e (refl, refl)
    ]

-- Behind the removal of a service its GUID is free, and the registrations are the same.
unregister_service-free :
    (env : ServiceEnv) (limit old : ℕ) (guid : Str) (s : ServiceRegistry)
    → Consistent s
    → find guid s.services_by_id ≡ some old
    → (find guid (unregister_service env limit guid s).services_by_id ≡ none)
      × ((unregister_service env limit guid s).regs ≡ s.regs)
unfolding unregister_service do_unregister_service
unregister_service-free env limit old guid s c e =
    let counted =
      count_service-same env limit false (s.regs old) (do_unregister_service env old s) in
    let g = (s.regs old).service_guid in
    let same = ap (str_eq g) (sym (c.0 guid old e)) ∙ str_eq_refl g in
    (
      rw (e, unregister_service)
          (ap (find guid) counted.0 ∙ find-remove g guid s.services_by_id ∙ rw same refl),
      rw (e, unregister_service) counted.1,
    )

pub update_service-Consistent :
    (env : ServiceEnv) (limit current old new : ℕ) (s : ServiceRegistry)
    → Consistent s
    → find (s.regs new).service_guid s.services_by_id ≡ some old
    → Consistent (update_service env limit current old new s)
unfolding update_service
update_service-Consistent env limit current old new s c e =
    if_intro Consistent _ s _ (λ _. c)
      (λ _.
        if_intro Consistent (is_same_service (s.regs old) (s.regs new)) _ _
          (λ _. renew-Consistent old (s.regs new) s c)
          (λ _.
            let guid = (s.regs new).service_guid in
            let s1 = unregister_service env limit guid s in
            let (free, same) = unregister_service-free env limit old guid s c e in
            add_service-Consistent new s1 (unregister_service-Consistent env limit guid s c)
              (ap (λ regs. find (regs new).service_guid s1.services_by_id) same ∙ free)))

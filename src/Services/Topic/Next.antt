-- ===== src/Services/Topic/Next.antt =====
-- What a call for the next service of a topic gives.
use opendxl_broker.Prelude.{
  ℕ, ◌≡◌, refl, sym, ap, ap₂, subst, ◌∙◌, inl, inr, Bool, true, false, Option, none, some, List, [],
  ◌∷◌, ◌||◌, Str, arith, Option-cases, All,
}
use opendxl_broker.Services.Registration.{ServiceEnv, is_eligible}
use opendxl_broker.Services.Zone.{ZoneServices, zone_next_service}
use opendxl_broker.Services.Topic.{
  Registrations, TopicServices, calculate_service_zones, next_in_zones, zones_or,
  topic_next_service,
}
use opendxl_broker.Services.Topic.Cover.{holds, in_zones}
use opendxl_broker.Services.Topic.Order.{
  InBounds, LocalFirst, LocalFirst-tail, in_zones-calculate_service_zones,
  calculate_service_zones-InBounds, calculate_service_zones-LocalFirst,
}
use opendxl_broker.Services.Topic.Answer.{some_inj, Answer, zone-Answer}

module _ (test is_broker : ℕ → Bool) where
  abbrev ZonesAnswer : List ZoneServices → Option ℕ × List ZoneServices → Type 0
  ZonesAnswer zones call =
      All InBounds call.1
      × LocalFirst is_broker call.1
      × ((p : ℕ) → in_zones p call.1 ≡ in_zones p zones)
      × Answer test is_broker (λ p. in_zones p zones) call.0

  -- A zone that answers, and one that does not.
  next-here :
      (z : ZoneServices) (zones : List ZoneServices) (ptr : ℕ)
      → (zone_next_service test z).0 ≡ some ptr
      → next_in_zones test (z ∷ zones) ≡ (some ptr, (zone_next_service test z).1 ∷ zones)
  unfolding next_in_zones
  next-here z zones ptr e = rw (e, next_in_zones) refl

  next-behind :
      (z : ZoneServices) (zones : List ZoneServices)
      → (zone_next_service test z).0 ≡ none
      → next_in_zones test (z ∷ zones) ≡ (
        (next_in_zones test zones).0,
        (zone_next_service test z).1 ∷ (next_in_zones test zones).1,
      )
  unfolding next_in_zones
  next-behind z zones e = rw (e, next_in_zones) refl

  answer-here :
      (z z' : ZoneServices) (zones : List ZoneServices) (ptr : ℕ)
      → InBounds z'
      → z'.services ≡ z.services
      → All InBounds zones
      → LocalFirst is_broker (z ∷ zones)
      → holds ptr z.services ≡ true
      → test ptr ≡ true
      → ZonesAnswer (z ∷ zones) (some ptr, z' ∷ zones)
  unfolding in_zones LocalFirst
  answer-here z z' zones ptr b' same b l h t = (
    (b', b),
    (l.0, (λ p q hp hq k. l.1 p q (ap (holds p) (sym same) ∙ hp) (ap (holds q) (sym same) ∙ hq) k)),
    (λ p. ap (λ x. holds p x || in_zones p zones) same),
    (
      (λ p e.
          let is = some_inj ptr p e in
          (
            ground (arith, ap (λ x. holds x z.services) is, h),
            ap test (sym is) ∙ t,
            λ nb q hq bq.
                absurd (ground (arith, l.0 q bq, l.1 ptr q h, hq, bq, nb, ap is_broker is)),
          )),
      λ n. absurd (none-some ptr n),
    ),
  )
    where
      none-some : (a : ℕ) → some a ≡ none → ⊥
      none-some a e = cc

  answer-behind :
      (z z' : ZoneServices) (zones : List ZoneServices) (rest : Option ℕ × List ZoneServices)
      → InBounds z'
      → z'.services ≡ z.services
      → LocalFirst is_broker (z ∷ zones)
      → ((q : ℕ) → holds q z.services ≡ true → test q ≡ false)
      → ZonesAnswer zones rest
      → ZonesAnswer (z ∷ zones) (rest.0, z' ∷ rest.1)
  unfolding in_zones LocalFirst
  answer-behind z z' zones rest b' same l fails (b, lr, among, (found, not_found)) = (
    (b', b),
    (
      (λ q k. among q ∙ l.0 q k),
      (λ p q hp hq k. l.1 p q (ap (holds p) (sym same) ∙ hp) (ap (holds q) (sym same) ∙ hq) k),
    ),
    (λ p. ap₂ ◌||◌ (ap (holds p) same) (among p)),
    (
      (λ p e.
          let (m, t, nb) = found p e in
          (ground (arith, m), t, λ k q hq bq. fails q (ground (arith, hq, l.0 q bq)))),
      λ n q hq. ground (arith, hq, fails q, not_found n q),
    ),
  )

  next_in_zones-Answer :
      (zones : List ZoneServices)
      → All InBounds zones
      → LocalFirst is_broker zones
      → ZonesAnswer zones (next_in_zones test zones)
  next_in_zones-Answer [] b l =
      unfold next_in_zones in unfold in_zones in (tt, l, (λ p. refl), ((λ ptr e. cc), λ n q h. cc))
  next_in_zones-Answer (z ∷ zones) b l =
      let (b', same, found, not_found) = zone-Answer test z b.0 in
      elim (Option-cases (zone_next_service test z).0) [
        | inl e ↦ subst (ZonesAnswer (z ∷ zones)) (sym (next-behind z zones e)) (
            answer-behind z (zone_next_service test z).1 zones (next_in_zones test zones) b' same l
              (not_found e) (next_in_zones-Answer zones b.1 (LocalFirst-tail is_broker z zones l)))
        | inr (ptr, e) ↦ subst (ZonesAnswer (z ∷ zones)) (sym (next-here z zones ptr e)) (
            answer-here z (zone_next_service test z).1 zones ptr b' same b.1 l (found ptr e).0
              (found ptr e).1)
      ]

-- Before the first call there are no zones, and then they hold the services, in order.
abbrev pub Zoned : (ℕ → Bool) → List ℕ → Option (List ZoneServices) → Type 0
Zoned is_broker services none = Unit
Zoned is_broker services (some zones) =
    All InBounds zones
    × LocalFirst is_broker zones
    × ((p : ℕ) → in_zones p zones ≡ holds p services)

zones_or-Zoned :
    (is_broker : ℕ → Bool) (services : List ℕ) (new_zones : List ZoneServices)
    (o : Option (List ZoneServices))
    → Zoned is_broker services (some new_zones)
    → Zoned is_broker services o
    → Zoned is_broker services (some (zones_or new_zones o))
unfolding zones_or
zones_or-Zoned is_broker services new_zones none h k = h
zones_or-Zoned is_broker services new_zones (some zones) h k = k

-- For a topic without zones, or with zones that hold just the services of the topic, with iterators
-- in bounds and the services of brokers alone in the first zone: this also holds after
-- getNextService; the service that it returns is one of the topic and eligible, and if it is no
-- service of a broker, no such service of the topic is eligible; and if it returns none, no service
-- of the topic is eligible.
pub topic_next_service_correct :
    (regs : Registrations) (env : ServiceEnv) (nodes : List (Str × List Str)) (current : ℕ)
    (tenant : Str) (t : TopicServices)
    → Zoned (λ s. (regs s).broker_service) t.services t.services_by_zone
    → let call = topic_next_service regs env nodes current tenant t in
      Zoned (λ s. (regs s).broker_service) call.1.services call.1.services_by_zone
      × Answer
          (λ s. is_eligible env current tenant t.topic (regs s))
          (λ s. (regs s).broker_service)
          (λ p. holds p t.services)
          call.0
unfolding topic_next_service
topic_next_service_correct regs env nodes current tenant t z =
    let is_broker = λ (s : ℕ). (regs s).broker_service in
    let test = λ (s : ℕ). is_eligible env current tenant t.topic (regs s) in
    let new_zones = calculate_service_zones regs env.guid nodes t.topic t.services in
    let (b, l, c) =
      zones_or-Zoned is_broker t.services new_zones t.services_by_zone
        (
          calculate_service_zones-InBounds regs env.guid nodes t.topic t.services,
          calculate_service_zones-LocalFirst regs env.guid nodes t.topic t.services,
          in_zones-calculate_service_zones regs env.guid nodes t.topic t.services,
        )
        z in
    let (b', l', among, (found, not_found)) =
      next_in_zones-Answer test is_broker (zones_or new_zones t.services_by_zone) b l in
    (
      (b', l', λ p. among p ∙ c p),
      (
        (λ ptr e.
            let (m, ok, first) = found ptr e in
            (sym (c ptr) ∙ m, ok, λ nb q h k. first nb q (c q ∙ h) k)),
        λ n q h. not_found n q (c q ∙ h),
      ),
    )

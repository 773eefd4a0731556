-- ===== src/Services/Topic/Order.antt =====
-- The zones of a topic: the services of brokers are in the first one, and iterators in bounds.
use opendxl_broker.Prelude.{
  ℕ, ◌≤◌, ◌≡◌, sym, ap, ◌∙◌, Bool, true, false, List, [], ◌∷◌, ◌++◌, ◌||◌, Str, length, arith, All,
  codes,
}
use opendxl_broker.Services.Zone.{ZoneServices, new_zone, zone_add_service}
use opendxl_broker.Services.Topic.{
  Registrations, take_out, add_services, zone_of, in_zone, zones_loop, local_zones,
  calculate_service_zones,
}
use opendxl_broker.Services.Topic.Cover.{
  holds, in_zones, holds-add_services, in_zones-zone_of, in_zones-append, holds-take_out,
  in_zones-zones_loop,
}

-- The iterator of a zone is at one of its services or at the end.
abbrev pub InBounds : ZoneServices → Type 0
InBounds z = z.next_service_iter ≤ length z.services

add_services-InBounds : (ss : List ℕ) (z : ZoneServices) → InBounds z → InBounds (add_services ss z)
unfolding add_services zone_add_service
add_services-InBounds [] z h = h
add_services-InBounds (s ∷ ss) z h = add_services-InBounds ss (zone_add_service s z) (omega arith)

zone_of-InBounds : (zone topic : Str) (ss : List ℕ) → All InBounds (zone_of zone topic ss)
unfolding zone_of new_zone
zone_of-InBounds zone topic [] = tt
zone_of-InBounds zone topic (s ∷ ss) =
    (add_services-InBounds (s ∷ ss) (new_zone zone topic) (omega arith), tt)

All-append : (a b : List ZoneServices) → All InBounds a → All InBounds b → All InBounds (a ++ b)
All-append [] b h k = k
All-append (z ∷ a) b h k = (h.0, All-append a b h.1 k)

zones_loop-InBounds :
    (regs : Registrations) (nodes : List (Str × List Str)) (topic : Str) (zones : List Str)
    (ss : List ℕ)
    → All InBounds (zones_loop regs nodes topic zones ss).0
unfolding zones_loop
zones_loop-InBounds regs nodes topic [] ss = tt
zones_loop-InBounds regs nodes topic (zone ∷ zones) ss =
    let found = take_out (in_zone regs nodes zone) ss in
    All-append (zone_of zone topic found.0) _ (zone_of-InBounds zone topic found.0)
      (zones_loop-InBounds regs nodes topic zones found.1)

-- The services of brokers are in the first zone, and if there are any, there are no others in it.
unfoldable pub LocalFirst : (ℕ → Bool) → List ZoneServices → Type 0
LocalFirst is_broker [] = Unit
LocalFirst is_broker (z ∷ zones) =
    ((q : ℕ) → is_broker q ≡ true → in_zones q zones ≡ false)
    × ((p q : ℕ)
        → holds p z.services ≡ true
        → holds q z.services ≡ true
        → is_broker q ≡ true
        → is_broker p ≡ true)

-- Zones without a service of a broker.
LocalFirst-none :
    (is_broker : ℕ → Bool) (zones : List ZoneServices)
    → ((q : ℕ) → is_broker q ≡ true → in_zones q zones ≡ false)
    → LocalFirst is_broker zones
unfolding LocalFirst in_zones
LocalFirst-none is_broker [] h = tt
LocalFirst-none is_broker (z ∷ zones) h =
    ((λ q b. ground (arith, h q b)), λ p q hp hq b. ground (arith, h q b, hq))

pub LocalFirst-tail :
    (is_broker : ℕ → Bool) (z : ZoneServices) (zones : List ZoneServices)
    → LocalFirst is_broker (z ∷ zones)
    → LocalFirst is_broker zones
unfolding LocalFirst
LocalFirst-tail is_broker z zones l = LocalFirst-none is_broker zones l.0

LocalFirst-zone_of :
    (is_broker : ℕ → Bool) (zone topic : Str) (ss : List ℕ) (zones : List ZoneServices)
    → ((q : ℕ) → is_broker q ≡ true → in_zones q zones ≡ false)
    → ((p : ℕ) → holds p ss ≡ true → is_broker p ≡ true)
    → LocalFirst is_broker (zone_of zone topic ss ++ zones)
unfolding zone_of LocalFirst new_zone holds
LocalFirst-zone_of is_broker zone topic [] zones h k = LocalFirst-none is_broker zones h
LocalFirst-zone_of is_broker zone topic (s ∷ ss) zones h k = (
  h,
  λ p q hp hq b.
      k p (sym (holds-add_services p (s ∷ ss) (new_zone zone topic) ∙ none_before p) ∙ hp),
)
  where
    none_before :
        (p : ℕ) → (holds p (s ∷ ss) || holds p (new_zone zone topic).services) ≡ holds p (s ∷ ss)
    none_before p = ground arith

module _ (regs : Registrations) (guid : Str) (nodes : List (Str × List Str)) (topic : Str)
    (ss : List ℕ) where
  abbrev is_broker : ℕ → Bool
  is_broker s = (regs s).broker_service

  abbrev broker_services : List ℕ × List ℕ
  broker_services = take_out is_broker ss

  abbrev by_zone : List ZoneServices × List ℕ
  by_zone = zones_loop regs nodes topic (local_zones guid nodes) broker_services.1

  in_zones-behind :
      (p : ℕ) → in_zones p (by_zone.0 ++ zone_of [] topic by_zone.1) ≡ holds p broker_services.1
  in_zones-behind p =
      in_zones-append p by_zone.0 (zone_of [] topic by_zone.1)
      ∙ ap (◌||◌ (in_zones p by_zone.0)) (in_zones-zone_of p [] topic by_zone.1)
      ∙ in_zones-zones_loop regs nodes topic (local_zones guid nodes) p broker_services.1

  pub in_zones-calculate_service_zones :
      (p : ℕ) → in_zones p (calculate_service_zones regs guid nodes topic ss) ≡ holds p ss
  unfolding calculate_service_zones
  in_zones-calculate_service_zones p =
      let out = holds-take_out is_broker p ss in
      ground (
        arith,
        in_zones-append p (zone_of (codes "(local)") topic broker_services.0)
            (by_zone.0 ++ zone_of [] topic by_zone.1),
        in_zones-zone_of p (codes "(local)") topic broker_services.0,
        in_zones-behind p,
        out.0,
        out.1,
      )

  pub calculate_service_zones-InBounds :
      All InBounds (calculate_service_zones regs guid nodes topic ss)
  unfolding calculate_service_zones
  calculate_service_zones-InBounds =
      All-append (zone_of (codes "(local)") topic broker_services.0) _
        (zone_of-InBounds (codes "(local)") topic broker_services.0)
        (All-append by_zone.0 _
          (zones_loop-InBounds regs nodes topic (local_zones guid nodes) broker_services.1)
          (zone_of-InBounds [] topic by_zone.1))

  pub calculate_service_zones-LocalFirst :
      LocalFirst is_broker (calculate_service_zones regs guid nodes topic ss)
  unfolding calculate_service_zones
  calculate_service_zones-LocalFirst =
      LocalFirst-zone_of is_broker (codes "(local)") topic broker_services.0
        (by_zone.0 ++ zone_of [] topic by_zone.1)
        (λ q b. in_zones-behind q ∙ ground (arith, (holds-take_out is_broker q ss).1, b))
        (λ p h. ground (arith, (holds-take_out is_broker p ss).0, h))

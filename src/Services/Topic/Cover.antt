-- ===== src/Services/Topic/Cover.antt =====
-- The zones of a topic hold the services of the topic.
use opendxl_broker.Prelude.{
  ℕ, ◌≡◌, refl, ap, ◌∙◌, inl, inr, Bool, true, false, List, [], ◌∷◌, ◌++◌, ◌&&◌, ◌||◌, not, Str,
  ◌==◌, arith, Bool-cases,
}
use opendxl_broker.Services.Zone.{ZoneServices, insert_service, new_zone, zone_add_service}
use opendxl_broker.Services.Topic.{
  Registrations, take_out, add_services, zone_of, in_zone, zones_loop,
}

unfoldable pub holds : ℕ → List ℕ → Bool
holds p [] = false
holds p (s ∷ services) = s == p || holds p services

unfoldable pub in_zones : ℕ → List ZoneServices → Bool
in_zones p [] = false
in_zones p (z ∷ zones) = holds p z.services || in_zones p zones

pub holds-insert_service :
    (p s : ℕ) (ss : List ℕ) → holds p (insert_service s ss) ≡ (s == p || holds p ss)
unfolding holds insert_service
holds-insert_service p s [] = refl
holds-insert_service p s (x ∷ ss) = ground (arith, holds-insert_service p s ss)

pub holds-add_services :
    (p : ℕ) (ss : List ℕ) (z : ZoneServices)
    → holds p (add_services ss z).services ≡ (holds p ss || holds p z.services)
unfolding holds add_services zone_add_service
holds-add_services p [] z = refl
holds-add_services p (s ∷ ss) z =
    holds-add_services p ss (zone_add_service s z)
    ∙ ground (arith, holds-insert_service p s z.services)

pub in_zones-zone_of :
    (p : ℕ) (zone topic : Str) (ss : List ℕ) → in_zones p (zone_of zone topic ss) ≡ holds p ss
unfolding in_zones zone_of holds new_zone
in_zones-zone_of p zone topic [] = refl
in_zones-zone_of p zone topic (s ∷ ss) =
    ground (arith, holds-add_services p (s ∷ ss) (new_zone zone topic))

pub in_zones-append :
    (p : ℕ) (a b : List ZoneServices) → in_zones p (a ++ b) ≡ (in_zones p a || in_zones p b)
unfolding in_zones
in_zones-append p [] b = refl
in_zones-append p (z ∷ a) b = ground (arith, in_zones-append p a b)

pub holds-take_out :
    (test : ℕ → Bool) (p : ℕ) (ss : List ℕ)
    → (holds p (take_out test ss).0 ≡ (test p && holds p ss))
      × (holds p (take_out test ss).1 ≡ (not (test p) && holds p ss))
unfolding holds take_out
holds-take_out test p [] = ground arith
holds-take_out test p (s ∷ ss) =
    let rest = holds-take_out test p ss in
    let same = λ (e : (s == p) ≡ true). ap test (equal s p e) in
    elim (Bool-cases (test s)) [
      | inl e ↦ rw e (ground (arith, rest.0, same, e), ground (arith, rest.1, same, e))
      | inr e ↦ rw e (ground (arith, rest.0, same, e), ground (arith, rest.1, same, e))
    ]
  where
    equal : (a b : ℕ) → (a == b) ≡ true → a ≡ b
    equal a b e = ground (arith, e)

pub in_zones-zones_loop :
    (regs : Registrations) (nodes : List (Str × List Str)) (topic : Str) (zones : List Str) (p : ℕ)
    (ss : List ℕ)
    → let res = zones_loop regs nodes topic zones ss in
      (in_zones p res.0 || holds p res.1) ≡ holds p ss
unfolding zones_loop
in_zones-zones_loop regs nodes topic [] p ss = unfold in_zones in refl
in_zones-zones_loop regs nodes topic (zone ∷ zones) p ss =
    let test = in_zone regs nodes zone in
    let found = take_out test ss in
    let out = holds-take_out test p ss in
    let rest = in_zones-zones_loop regs nodes topic zones p found.1 in
    ground (
      arith,
      in_zones-append p (zone_of zone topic found.0) (zones_loop regs nodes topic zones found.1).0,
      in_zones-zone_of p zone topic found.0,
      out.0,
      out.1,
      rest,
    )

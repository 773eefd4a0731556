-- ===== src/Services/Topic/Answer.antt =====
-- What is asked of an answer of a search by zone, and the answer of one zone.
use opendxl_broker.Prelude.{
  ℕ, zero, suc, ◌≡◌, refl, ap, inl, inr, Bool, true, false, Option, none, some, List, [], ◌∷◌,
  get_elem?, ◌==◌, arith, Bool-cases,
}
use opendxl_broker.Services.Zone.{ZoneServices, zone_next_service}
use opendxl_broker.Services.Zone.Fair.{zone_next_service_correct}
use opendxl_broker.Services.Topic.Cover.{holds}
use opendxl_broker.Services.Topic.Order.{InBounds}

pub some_inj : (a b : ℕ) → some a ≡ some b → a ≡ b
some_inj a b e = cc

holds-get_elem? : (ss : List ℕ) (j p : ℕ) → get_elem? ss j ≡ some p → holds p ss ≡ true
unfolding holds
holds-get_elem? [] j p e = cc
holds-get_elem? (s ∷ ss) zero p e = ground (arith, some_inj s p e)
holds-get_elem? (s ∷ ss) (suc j) p e = ground (arith, holds-get_elem? ss j p e)

get_elem?-holds : (ss : List ℕ) (p : ℕ) → holds p ss ≡ true → (j : ℕ) × (get_elem? ss j ≡ some p)
unfolding holds
get_elem?-holds [] p h = cc
get_elem?-holds (s ∷ ss) p h = elim (Bool-cases (s == p)) [
  | inl e ↦ (0, ap some (ground (arith, e)))
  | inr e ↦ let (j, f) = get_elem?-holds ss p (ground (arith, e, h)) in (suc j, f)
]

-- The answer of a search by zone.
abbrev pub Answer : (ℕ → Bool) → (ℕ → Bool) → (ℕ → Bool) → Option ℕ → Type 0
Answer test is_broker among answer =
    ((ptr : ℕ)
      → answer ≡ some ptr
      → (among ptr ≡ true)
        × (test ptr ≡ true)
        × (is_broker ptr ≡ false → (q : ℕ) → among q ≡ true → is_broker q ≡ true → test q ≡ false))
    × (answer ≡ none → (q : ℕ) → among q ≡ true → test q ≡ false)

pub zone-Answer :
    (test : ℕ → Bool) (z : ZoneServices)
    → InBounds z
    → let call = zone_next_service test z in
      InBounds call.1
      × (call.1.services ≡ z.services)
      × ((ptr : ℕ) → call.0 ≡ some ptr → (holds ptr z.services ≡ true) × (test ptr ≡ true))
      × (call.0 ≡ none → (q : ℕ) → holds q z.services ≡ true → test q ≡ false)
unfolding zone_next_service
zone-Answer test z b =
    let (c, found, not_found) = zone_next_service_correct test z b in
    (
      c,
      refl,
      (λ ptr e. let (t, (j, f)) = found ptr e in (holds-get_elem? z.services j ptr f, t)),
      λ n q h. let (j, f) = get_elem?-holds z.services q h in not_found n j q f,
    )

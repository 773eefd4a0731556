-- ===== src/Services/Zone/Fair.antt =====
-- What a call for the next service of a zone gives, and that every service gets its turn.
use opendxl_broker.Prelude.{
  ℕ, zero, suc, ◌≤◌, ◌<◌, ◌≡◌, sym, ◌∙◌, ◌⊎◌, inl, inr, Bool, true, false, Option, none, some, List,
  [], ◌∷◌, length, get_elem?, arith, Bool-cases,
}
use opendxl_broker.Services.Zone.{ZoneServices, zone_next_service, zone_calls}
use opendxl_broker.Services.Zone.Turns.{Ahead, next_loop-Closer, next_loop_sound, every_Ahead}

-- A service is the answer of one of some calls.
abbrev pub Answered : ℕ → List (Option ℕ) → Type 0
Answered ptr [] = ⊥
Answered ptr (a ∷ answers) = (a ≡ some ptr) ⊎ Answered ptr answers

none_or_some : (a : ℕ) → none ≡ some a → ⊥
none_or_some a e = cc

-- A call gives a service of the zone that passes the test, and none only if none passes it.
pub zone_next_service_correct :
    (test : ℕ → Bool) (z : ZoneServices)
    → z.next_service_iter ≤ length z.services
    → let call = zone_next_service test z in
      (call.1.next_service_iter ≤ length z.services)
      × ((ptr : ℕ)
          → call.0 ≡ some ptr
          → (test ptr ≡ true) × ((j : ℕ) × (get_elem? z.services j ≡ some ptr)))
      × (call.0 ≡ none → (j ptr : ℕ) → get_elem? z.services j ≡ some ptr → test ptr ≡ false)
unfolding zone_next_service
zone_next_service_correct test z le =
    let size = length z.services in
    let (b, sound) = next_loop_sound test z.services size z.next_service_iter le (omega arith) in
    (
      b,
      sound,
      λ n j ptr e. elim (Bool-cases (test ptr)) [
        | inr f ↦ f
        | inl f ↦
            let (d, lt, a) = every_Ahead test z.services z.next_service_iter j ptr le e in
            absurd
              (elim (next_loop-Closer test z.services size z.next_service_iter d ptr le
                (omega (arith, lt)) lt a f) [
                  | inl g ↦ absurd (none_or_some ptr (sym n ∙ g))
                  | inr (k, l, m, b', ah) ↦ m n
                ])
      ],
    )

zone_calls-Ahead :
    (test : ℕ → Bool) (n d ptr : ℕ) (z : ZoneServices)
    → z.next_service_iter ≤ length z.services
    → d < length z.services
    → d < n
    → Ahead z.services z.next_service_iter d ptr
    → test ptr ≡ true
    → Answered ptr (zone_calls test n z)
unfolding zone_calls zone_next_service
zone_calls-Ahead test zero d ptr z le small lt a t = absurd (omega (arith, lt))
zone_calls-Ahead test (suc n) d ptr z le small lt a t =
    elim (next_loop-Closer test z.services (length z.services) z.next_service_iter d ptr le
      (omega (arith, small)) small a t) [
        | inl e ↦ inl e
        | inr (k, l, m, b, ah) ↦ inr (
            zone_calls-Ahead test n k ptr (zone_next_service test z).1 b (omega (arith, l, small))
              (omega (arith, l, lt)) ah t)
      ]

-- For a zone with its iterator in bounds, any test on services that stays the same, and a service
-- of the zone that passes it: among as many calls of getNextService in a row as the zone has
-- services, one returns this service.
pub zone_calls-fair :
    (test : ℕ → Bool) (z : ZoneServices) (j ptr : ℕ)
    → z.next_service_iter ≤ length z.services
    → get_elem? z.services j ≡ some ptr
    → test ptr ≡ true
    → Answered ptr (zone_calls test (length z.services) z)
zone_calls-fair test z j ptr le e t =
    let (d, lt, a) = every_Ahead test z.services z.next_service_iter j ptr le e in
    zone_calls-Ahead test (length z.services) d ptr z le lt lt a t

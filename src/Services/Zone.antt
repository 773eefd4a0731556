-- ===== src/Services/Zone.antt =====
-- ZoneServices of src/brokerlib/serviceregistry/src/ZoneServices.cpp. A pointer to a registration is
-- its address, and a std::set of pointers is a list in the order of the addresses; the iterator is
-- an index, which is the number of the services where it is `end()`.
pub mod Turns
pub mod Fair
use opendxl_broker.Prelude.{
  ℕ, zero, suc, ◌+◌, Bool, true, false, Option, none, some, List, [], ◌∷◌, Str, length, get_elem?,
  ltb, ◌==◌, if◌then◌else◌,
}

pub record ZoneServices : Type 0 where
  pub zone : Str
  pub topic : Str
  pub services : List ℕ
  pub next_service_iter : ℕ

-- `set.insert( reg )` and `set.erase( reg )`
unfoldable pub insert_service : ℕ → List ℕ → List ℕ
insert_service reg [] = reg ∷ []
insert_service reg (s ∷ services) =
    let rest = insert_service reg services in
    if ltb reg s then reg ∷ s ∷ services else (if reg == s then s ∷ services else s ∷ rest)

unfoldable pub erase_service : ℕ → List ℕ → List ℕ
erase_service reg [] = []
erase_service reg (s ∷ services) =
    let rest = erase_service reg services in if s == reg then rest else s ∷ rest

unfoldable pub new_zone : Str → Str → ZoneServices
new_zone zone topic = record { zone = zone; topic = topic; services = []; next_service_iter = 0 }

unfoldable pub zone_add_service : ℕ → ZoneServices → ZoneServices
zone_add_service reg z =
    let services = insert_service reg z.services in
    record z { services = services; next_service_iter = length services }

unfoldable pub zone_remove_service : ℕ → ZoneServices → ZoneServices
zone_remove_service reg z =
    let services = erase_service reg z.services in
    record z { services = services; next_service_iter = length services }

-- The service under the iterator, where `end()` is set back to `begin()`.
unfoldable pub turn : List ℕ → ℕ → ℕ
turn services iter = if iter == length services then 0 else iter

-- for( int i = 0; i < size; i++ ), with the conditions on a service as a test.
unfoldable pub next_loop : (ℕ → Bool) → List ℕ → ℕ → ℕ → Option ℕ × ℕ
next_loop test services zero iter = (none, iter)
next_loop test services (suc rounds) iter =
    let i = turn services iter in
    let rest = next_loop test services rounds (i + 1) in
    elim (get_elem? services i) [
      | none ↦ (none, i)
      | some ptr ↦ if test ptr then (some ptr, i + 1) else rest
    ]

unfoldable pub zone_next_service : (ℕ → Bool) → ZoneServices → Option ℕ × ZoneServices
zone_next_service test z =
    let found = next_loop test z.services (length z.services) z.next_service_iter in
    (found.0, record z { next_service_iter = found.1 })

-- The answers of some calls in a row.
unfoldable pub zone_calls : (ℕ → Bool) → ℕ → ZoneServices → List (Option ℕ)
zone_calls test zero z = []
zone_calls test (suc n) z = let call = zone_next_service test z in call.0 ∷ zone_calls test n call.1

-- ===== src/Fabric/Path/Walks.antt =====
-- What the search of a path finds, and that it ends.
use opendxl_broker.Prelude.{
  ℕ, ◌+◌, ◌≤◌, ◌<◌, ◌≡◌, ◌∙◌, inl, inr, true, false, some, List, [], ◌∷◌, Str, str_eq, str_eq→eq,
  str_eq_refl, has, insert, find, if◌then◌else◌, arith, Bool-cases, has-insert,
}
use opendxl_broker.Fabric.State.{BrokerState}
use opendxl_broker.Fabric.Registry.{Registry, connections_of}

-- A broker, then one of its connections, and so on to the last.
pub data Walk (registry : Registry) : Str → Str → List Str → Type 0 where
  here : (b : Str) → Walk registry b b (b ∷ [])
  step :
      (a c b : Str) (ids : List Str)
      → has c (connections_of registry a) ≡ true
      → Walk registry c b ids
      → Walk registry a b (a ∷ ids)

-- How many registered brokers are not visited.
unfoldable pub unvisited : Registry → List Str → ℕ
unvisited [] v = 0
unvisited ((id, state) ∷ registry) v = (if has id v then 0 else 1) + unvisited registry v

abbrev pub Grown : List Str → List Str → Type 0
Grown v w = (x : Str) → has x v ≡ true → has x w ≡ true

pub unvisited-Grown : (r : Registry) (v w : List Str) → Grown v w → unvisited r w ≤ unvisited r v
unfolding unvisited
unvisited-Grown [] v w g = omega arith
unvisited-Grown ((id, state) ∷ r) v w g = ground (arith, g id, unvisited-Grown r v w g)

pub Grown-insert : (a : Str) (v : List Str) → Grown v (insert a v)
Grown-insert a v x h = has-insert x a v ∙ ground (arith, h)

pub has-insert_same : (a : Str) (v : List Str) → has a (insert a v) ≡ true
has-insert_same a v = has-insert a a v ∙ ground (arith, str_eq_refl a)

pub unvisited-insert :
    (r : Registry) (a : Str) (v : List Str) (state : BrokerState)
    → has a v ≡ false
    → find a r ≡ some state
    → unvisited r (insert a v) < unvisited r v
unfolding unvisited find
unvisited-insert [] a v state h f = cc
unvisited-insert ((id, s) ∷ r) a v state h f = elim (Bool-cases (str_eq id a)) [
  | inl e ↦ ground (
    arith,
    str_eq→eq id a e,
    h,
    has-insert_same a v,
    unvisited-Grown r v (insert a v) (Grown-insert a v),
  )
  | inr e ↦ ground (arith, e, f, unvisited-insert r a v state h, Grown-insert a v id)
]

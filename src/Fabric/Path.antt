-- ===== src/Fabric/Path.antt =====
-- The search of a path through the fabric, BrokerRegistry::findPathToBroker and its helper in
-- src/brokerlib/brokerregistry/src/brokerregistry.cpp, and the route that getNextBroker keeps in the
-- Cache of src/brokerlib/brokerregistry/src/cache.cpp.
pub mod Walks
pub mod Loop
pub mod Search
pub mod Next
use opendxl_broker.Prelude.{
  ℕ, zero, suc, ◌+◌, Bool, true, false, Option, none, some, List, [], ◌∷◌, ◌&&◌, not, Str, str_eq,
  has, insert, find, length, if◌then◌else◌,
}
use opendxl_broker.Fabric.Registry.{Registry, connections_of, is_registered}

-- traversal_t: whether a path is found, and the stack of its brokers, the top first.
abbrev pub Traversal : Type 0
Traversal = Bool × List Str

-- forEachConnection with FindPathToBrokerHelper::visitConnection, where `go` is findPathToBroker.
unfoldable pub visit_connections :
    (Str → List Str → Option (Traversal × List Str))
    → Str
    → List Str
    → Traversal
    → List Str
    → Option (Traversal × List Str)
visit_connections go start [] found visited = some (found, visited)
visit_connections go start (id ∷ ids) found visited = elim (not found.0 && not (has id visited)) [
  | false ↦ visit_connections go start ids found visited
  | true ↦ elim (go id visited) [
    | none ↦ none
    | some (next, visited') ↦
        visit_connections go start ids (if next.0 then (true, start ∷ next.1) else next) visited'
  ]
]

-- On fuel for the depth of the recursion; the visited brokers are the state.
unfoldable pub find_path_to_broker :
    Registry → Str → ℕ → Str → List Str → Option (Traversal × List Str)
find_path_to_broker registry finish zero start visited = none
find_path_to_broker registry finish (suc fuel) start visited = elim (str_eq start finish) [
  | true ↦ some ((true, finish ∷ []), visited)
  | false ↦
      visit_connections (find_path_to_broker registry finish fuel) start
        (connections_of registry start) (false, []) (insert start visited)
]

-- From a start with nothing visited. A recursion goes down only from a registered broker that is not
-- visited yet.
unfoldable pub find_path : Registry → Str → Str → Option Traversal
find_path registry start finish =
    elim (find_path_to_broker registry finish (length registry + 1) start []) [
      | none ↦ none
      | some (found, visited) ↦ some found
    ]

-- The entries of the cache: from, to, and the next broker.
abbrev pub Routes : Type 0
Routes = List ((Str × Str) × Str)

unfoldable pub cached : Str → Str → Routes → Str
cached a b [] = []
cached a b (((from, to), next) ∷ routes) =
    let rest = cached a b routes in if str_eq from a && str_eq to b then next else rest

-- Cache::get
unfoldable pub get_route : Str → Str → Routes → Str
get_route [] to routes = []
get_route (c ∷ cs) [] routes = []
get_route (c ∷ cs) (d ∷ ds) routes = cached (c ∷ cs) (d ∷ ds) routes

unfoldable pub set_route : Str → Str → Str → Routes → Routes
set_route a b n [] = ((a, b), n) ∷ []
set_route a b n (((from, to), next) ∷ routes) =
    let rest = set_route a b n routes in
    if str_eq from a && str_eq to b then ((from, to), n) ∷ routes else ((from, to), next) ∷ rest

-- Cache::add
unfoldable pub add_route : Str → Str → Str → Routes → Routes
add_route [] to next routes = routes
add_route (c ∷ cs) [] next routes = routes
add_route (c ∷ cs) (d ∷ ds) [] routes = routes
add_route (c ∷ cs) (d ∷ ds) (e ∷ es) routes = set_route (c ∷ cs) (d ∷ ds) (e ∷ es) routes

-- `ret.second.pop(); ret.second.top()`, the empty string where the code reads an empty stack.
unfoldable pub second : List Str → Str
second [] = []
second (a ∷ []) = []
second (a ∷ b ∷ ids) = b

-- The search and the update of the cache, for two brokers without a route in the cache.
unfoldable pub search_route : Registry → Str → Str → Routes → Option (Str × Routes)
search_route registry from to routes = elim (find_path registry from to) [
  | none ↦ none
  | some found ↦ some (
      if found.0 then (second found.1, add_route from to (second found.1) routes) else ([], routes))
]

-- getNextBroker, where the empty string is no broker; `none` says that the fuel ran out.
unfoldable pub get_next_broker : Registry → Str → Str → Routes → Option (Str × Routes)
get_next_broker registry from to routes =
    if is_registered from registry && is_registered to registry
    then (if str_eq from to then some (to, routes) else elim (get_route from to routes) [
      | [] ↦ search_route registry from to routes
      | c ∷ cs ↦ some (c ∷ cs, routes)
    ])
    else some ([], routes)

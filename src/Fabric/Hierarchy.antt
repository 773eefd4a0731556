-- ===== src/Fabric/Hierarchy.antt =====
-- The walk down the fabric behind a connection, BrokerRegistry::depthFirstTraversal with the
-- FindSubscriberVisitor in src/brokerlib/brokerregistry/src/brokerregistry.cpp: whether a topic has a
-- subscriber there. It is what isSubscriberInHierarchy does where its cache of topics has no answer.
pub mod Route
pub mod Search
use opendxl_broker.Prelude.{
  ℕ, zero, suc, ◌+◌, Bool, true, false, Option, none, some, List, [], ◌∷◌, ◌&&◌, not, Str, str_eq,
  has, insert, length, if◌then◌else◌,
}
use opendxl_broker.Fabric.State.{Settings}
use opendxl_broker.Fabric.Registry.{Registry, connections_of, is_subscriber_in_broker}

-- forEachConnection with DepthFirstTraversalHelper::visitConnection, where `go` is
-- _depthFirstTraversal. The answer is whether the visitor has stopped, and the visited brokers.
unfoldable pub traverse_connections :
    (Str → List Str → Option (Bool × List Str))
    → (Str → Bool)
    → List Str
    → List Str
    → Option (Bool × List Str)
traverse_connections go allow [] visited = some (false, visited)
traverse_connections go allow (id ∷ ids) visited = elim (not (has id visited) && allow id) [
  | false ↦ traverse_connections go allow ids visited
  | true ↦ elim (go id visited) [
    | none ↦ none
    | some (stopped, visited') ↦ elim stopped [
      | true ↦ some (true, visited')
      | false ↦ traverse_connections go allow ids visited'
    ]
  ]
]

-- _depthFirstTraversal on fuel, for a visitor that stops where its answer is true.
unfoldable pub traverse :
    Registry → (Str → Bool) → (Str → Option Bool) → ℕ → Str → List Str → Option (Bool × List Str)
traverse registry allow visit zero start visited = none
traverse registry allow visit (suc fuel) start visited = elim (visit start) [
  | none ↦ none
  | some stopped ↦ elim stopped [
    | true ↦ some (true, insert start visited)
    | false ↦
        traverse_connections (traverse registry allow visit fuel) allow
          (connections_of registry start) (insert start visited)
  ]
]

unfoldable pub depth_first_traversal :
    Registry → (Str → Bool) → (Str → Option Bool) → Str → Option Bool
depth_first_traversal registry allow visit start =
    if allow start
    then elim (traverse registry allow visit (length registry + 1) start []) [
      | none ↦ none
      | some (stopped, visited) ↦ some stopped
    ]
    else some false

-- isSubscriberInHierarchy, where the visitor does not go to the broker itself.
unfoldable pub is_subscriber_in_hierarchy : Settings → Str → Str → Str → Registry → Option Bool
is_subscriber_in_hierarchy settings broker_id connection topic registry =
    depth_first_traversal registry (λ to. not (str_eq to broker_id))
      (λ to. is_subscriber_in_broker settings to topic registry) connection

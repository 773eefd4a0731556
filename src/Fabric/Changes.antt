-- ===== src/Fabric/Changes.antt =====
-- The changes of the fabric in src/brokerlib/brokerregistry/src/brokerregistry.cpp, with the cache of
-- routes, which a change of connections clears. The cache of topics is in Fabric/TopicCache.
pub mod Routed
use opendxl_broker.Prelude.{
  is_empty, ◌||◌, ℕ, ◌+◌, ◌-◌, ◌*◌, Bool, true, false, Option, none, some, List, [], ◌∷◌, ◌&&◌, Str,
  find, assign, leb, ◌==◌, if◌then◌else◌,
}
use opendxl_broker.Fabric.State.{
  Settings, Broker, BrokerState, add_topic, remove_topic, add_pending_topics, swap_pending_topics,
  add_connection, remove_connection, set_connections, is_expired,
}
use opendxl_broker.Fabric.Registry.{Registry, remove_broker}
use opendxl_broker.Fabric.Path.{Routes}

pub record Fabric : Type 0 where
  pub registry : Registry
  pub routes : Routes

-- A new BrokerState without connections and topics, at a time.
unfoldable pub new_broker_state : ℕ → Broker → BrokerState
new_broker_state now broker = record {
  broker = broker;
  counted_connections = [];
  child_connections = [];
  subscriptions = [];
  subscriptions_wildcard_count = 0;
  pending_subscriptions = [];
  pending_subscriptions_wildcard_count = 0;
  subscriptions_change_count = 0;
  reg_time = now;
}

unfoldable pub put_new_broker : ℕ → Broker → Fabric → Fabric
put_new_broker now broker fabric = record {
  registry = assign broker.id (new_broker_state now broker) fabric.registry;
  routes = [];
}

-- addBroker with the properties of the broker: one with the same start time is updated.
unfoldable pub add_broker : ℕ → Broker → Fabric → Bool × Fabric
add_broker now broker fabric =
    if is_empty broker.id || is_empty broker.hostname
    then (false, fabric)
    else elim (find broker.id fabric.registry) [
      | none ↦ (true, put_new_broker now broker fabric)
      | some state ↦ (
        true,
        if state.broker.start_time == broker.start_time
            then record fabric {
              registry = assign broker.id (record state { broker = broker }) fabric.registry;
            }
            else put_new_broker now broker fabric,
      )
    ]

unfoldable pub remove_broker_from : Settings → Str → Fabric → Bool × Fabric
remove_broker_from settings id fabric =
    let res = remove_broker settings id fabric.registry in
    if res.0 then (true, record { registry = res.1; routes = [] }) else (false, fabric)

-- An operation on the state of a broker that leaves the routes.
unfoldable pub change_topics : (BrokerState → Bool × BrokerState) → Str → Fabric → Bool × Fabric
change_topics change id fabric = elim (find id fabric.registry) [
  | none ↦ (false, fabric)
  | some state ↦
      let res = change state in
      (res.0, record fabric { registry = assign id res.1 fabric.registry })
]

unfoldable pub add_topic_to : Settings → Str → Str → Fabric → Bool × Fabric
add_topic_to settings id topic fabric = change_topics (add_topic settings topic) id fabric

unfoldable pub remove_topic_from : Settings → Str → Str → Fabric → Bool × Fabric
remove_topic_from settings id topic fabric = change_topics (remove_topic settings topic) id fabric

unfoldable pub add_pending_topics_to : Str → List Str → ℕ → Fabric → Bool × Fabric
add_pending_topics_to id subs wildcard_count fabric =
    change_topics (λ state. (true, add_pending_topics subs wildcard_count state)) id fabric

unfoldable pub swap_pending_topics_of : Str → Fabric → Bool × Fabric
swap_pending_topics_of id fabric =
    change_topics (λ state. (true, swap_pending_topics state)) id fabric

unfoldable pub update_registration_time : ℕ → Str → Fabric → Bool × Fabric
update_registration_time now id fabric =
    change_topics (λ state. (true, record state { reg_time = now })) id fabric

-- An operation on the connections of a broker, which clears the routes.
unfoldable pub change_connections : (BrokerState → BrokerState) → Str → Fabric → Bool × Fabric
change_connections change id fabric = elim (find id fabric.registry) [
  | none ↦ (false, fabric)
  | some state ↦ (true, record { registry = assign id (change state) fabric.registry; routes = [] })
]

unfoldable pub add_connection_to : Str → Str → Bool → Fabric → Bool × Fabric
add_connection_to id connection_id is_child fabric =
    if is_empty connection_id
    then (false, fabric)
    else change_connections (add_connection connection_id is_child) id fabric

unfoldable pub remove_connection_from : Str → Str → Fabric → Bool × Fabric
remove_connection_from id connection_id fabric =
    if is_empty connection_id
    then (false, fabric)
    else change_connections (remove_connection connection_id) id fabric

-- The routes are cleared if the connections have changed.
unfoldable pub set_connections_of : Str → List Str → List Str → Fabric → Bool × Fabric
set_connections_of id ids child_ids fabric = elim (find id fabric.registry) [
  | none ↦ (false, fabric)
  | some state ↦ (
    true,
    if (set_connections ids child_ids state).0
        then record {
          registry = assign id (set_connections ids child_ids state).1 fabric.registry;
          routes = [];
        }
        else fabric,
  )
]

-- The loop over the brokers in onCoreMaintenance, which removes those that are expired.
unfoldable pub remove_expired : Settings → ℕ → Registry → Fabric → Fabric
remove_expired settings now [] fabric = fabric
remove_expired settings now ((id, state) ∷ brokers) fabric =
    remove_expired settings now brokers (elim (find id fabric.registry) [
      | none ↦ fabric
      | some state' ↦
          if is_expired settings now state'
          then (remove_broker_from settings id fabric).1
          else fabric
    ])

-- ===== src/Examples/Brokers.antt =====
-- The fabric of brokers, its topics and the policy of topics at concrete inputs.
use opendxl_broker.Prelude.{
  ℕ, ◌≡◌, ◌≢◌, refl, true, false, some, Bool, List, [], ◌∷◌, ◌++◌, not, Str, All, codes, has, find,
  keys, str_eq, arith,
}
use opendxl_broker.Topic.Wildcards.{pound_char}
use opendxl_broker.Topic.Iterate.{is_wildcard, wildcards}
use opendxl_broker.Topic.Covers.{prefix, coverings, NoSlash}
use opendxl_broker.Topic.Covers.Loop.{wildcards-prefix}
use opendxl_broker.Auth.State.{
  StateData, authorization_state, is_authorized_to_subscribe, is_authorized_to_publish, with_certs,
}
use opendxl_broker.Auth.Rows.{rows, permits, some_permits}
use opendxl_broker.Auth.Permits.{if_none, authorized-permits, with_certs-permits}
use opendxl_broker.Fabric.State.{
  Settings, Broker, BrokerState, add_topic, remove_topic, add_pending_topics, swap_pending_topics,
  get_connections,
}
use opendxl_broker.Fabric.Counted.{wildcards_in, TopicsCounted, topics-TopicsCounted}
use opendxl_broker.Fabric.Registry.{Registry, is_registered}
use opendxl_broker.Fabric.Registry.{is_subscriber_in_broker, connections_of}
use opendxl_broker.Fabric.Hierarchy.{is_subscriber_in_hierarchy}
use opendxl_broker.Fabric.Hierarchy.Route.{Route}
use opendxl_broker.Fabric.Hierarchy.Search.{is_subscriber_in_hierarchy_correct}
use opendxl_broker.Fabric.Path.{Traversal, Routes, find_path, get_next_broker}
use opendxl_broker.Fabric.Path.Walks.{Walk}
use opendxl_broker.Fabric.Path.Search.{find_path_correct}
use opendxl_broker.Fabric.Path.Next.{Answer, get_next_broker_correct}
use opendxl_broker.Fabric.Changes.{
  Fabric, add_broker, remove_broker_from, add_connection_to, remove_connection_from,
  set_connections_of, add_topic_to, remove_topic_from, add_pending_topics_to,
  swap_pending_topics_of, update_registration_time, remove_expired,
}
use opendxl_broker.Fabric.Changes.Routed.{Routed, fabric-Routed}

-- The topic `a/b/c` as the levels in front of its last one.
abbrev levels_in_front : List Str
levels_in_front = codes "b" ∷ codes "a" ∷ []

abbrev last_level : Str
last_level = codes "c"

levels-NoSlash : All NoSlash levels_in_front
levels-NoSlash = ((omega arith, tt), ((omega arith, tt), tt))

last-NoSlash : NoSlash last_level
last-NoSlash = (omega arith, tt)

last_not_pound : last_level ≢ (pound_char ∷ [])
last_not_pound e = cc

the_topic : prefix levels_in_front ++ last_level ≡ codes "a/b/c"
unfolding prefix
the_topic = refl

its_wildcards : coverings levels_in_front ≡ codes "a/b/#" ∷ codes "a/#" ∷ codes "#" ∷ []
unfolding coverings prefix
its_wildcards = refl

wildcards-prefix_example :
    wildcards (prefix levels_in_front ++ last_level) ≡ some (coverings levels_in_front)
wildcards-prefix_example =
    wildcards-prefix levels_in_front last_level levels-NoSlash last-NoSlash last_not_pound

-- Of all below `a` only one client may be told, and only another may tell `a/b/c`.
abbrev subscribers : StateData
subscribers = (codes "a/#", codes "one" ∷ []) ∷ []

abbrev publishers : StateData
publishers = (codes "a/b/c", codes "two" ∷ []) ∷ []

authorized-permits_example :
    let topic = prefix levels_in_front ++ last_level in
    (is_authorized_to_subscribe (authorization_state publishers subscribers) (codes "one") topic
      ≡ some (permits (rows subscribers (topic ∷ coverings levels_in_front)) (codes "one")))
    × (is_authorized_to_publish (authorization_state publishers subscribers) (codes "one") topic
        ≡ some (permits (rows publishers (topic ∷ coverings levels_in_front)) (codes "one")))
authorized-permits_example =
    authorized-permits publishers subscribers levels_in_front last_level levels-NoSlash last-NoSlash
      last_not_pound (codes "one")

with_certs-permits_example :
    let topic = prefix levels_in_front ++ last_level in
    let state = authorization_state publishers subscribers in
    let certs = codes "two" ∷ codes "one" ∷ [] in
    (with_certs (λ key. is_authorized_to_subscribe state key topic) certs
      ≡ some (some_permits (rows subscribers (topic ∷ coverings levels_in_front)) (if_none certs)))
    × (with_certs (λ key. is_authorized_to_publish state key topic) certs
        ≡ some (some_permits (rows publishers (topic ∷ coverings levels_in_front)) (if_none certs)))
with_certs-permits_example =
    with_certs-permits publishers subscribers levels_in_front last_level levels-NoSlash last-NoSlash
      last_not_pound (codes "two" ∷ codes "one" ∷ [])

-- Three brokers in a row.
abbrev settings : Settings
settings = record { guid = codes "x"; ttl_grace_period_mins = 5; topic_routing_enabled = true }

abbrev broker : Str → Broker
broker id = record {
  id = id;
  hostname = codes "host";
  port = 8883;
  ttl = 60;
  start_time = 10;
  connection_limit = 100;
  topic_routing_enabled = true;
}

abbrev state_of : Str → List (Str × ℕ) → BrokerState
state_of id connections = record {
  broker = broker id;
  counted_connections = connections;
  child_connections = [];
  subscriptions = codes "a/#" ∷ codes "b" ∷ [];
  subscriptions_wildcard_count = 1;
  pending_subscriptions = codes "b" ∷ [];
  pending_subscriptions_wildcard_count = 0;
  subscriptions_change_count = 0;
  reg_time = 100;
}

abbrev registry : Registry
registry =
    (codes "x", state_of (codes "x") ((codes "y", 1) ∷ []))
    ∷ (codes "y", state_of (codes "y") ((codes "x", 1) ∷ (codes "z", 2) ∷ []))
    ∷ (codes "z", state_of (codes "z") [])
    ∷ []

state-TopicsCounted : TopicsCounted (state_of (codes "x") [])
unfolding wildcards_in is_wildcard has str_eq
state-TopicsCounted = (((refl, (refl, tt)), refl), ((refl, tt), refl))

topics-TopicsCounted_example :
    let state = state_of (codes "x") [] in
    let added = add_pending_topics (codes "c/#" ∷ []) 1 state in
    TopicsCounted (add_topic settings (codes "c/#") state).1
    × TopicsCounted (remove_topic settings (codes "c/#") state).1
    × TopicsCounted added
    × TopicsCounted (swap_pending_topics added)
unfolding wildcards_in is_wildcard has str_eq
topics-TopicsCounted_example =
    topics-TopicsCounted settings (codes "c/#") (codes "c/#" ∷ []) 1 (state_of (codes "x") [])
      state-TopicsCounted (refl, tt) (refl, tt) refl

find_path_correct_example :
    (found : Traversal) × (find_path registry (codes "x") (codes "z") ≡ some found)
    × (found.0 ≡ true → Walk registry (codes "x") (codes "z") found.1)
    × (found.0 ≡ false → (ids : List Str) → ¬ Walk registry (codes "x") (codes "z") ids)
find_path_correct_example = find_path_correct registry (codes "x") (codes "z")

registry_named : All (λ r. has [] (get_connections r.1) ≡ false) registry
unfolding get_connections has str_eq keys
registry_named = (refl, (refl, (refl, tt)))

get_next_broker_correct_example :
    (res : Str × Routes) × (get_next_broker registry (codes "x") (codes "z") [] ≡ some res)
    × Answer registry (codes "x") (codes "z") res
unfolding is_registered str_eq find
get_next_broker_correct_example =
    get_next_broker_correct registry registry_named (codes "x") (codes "z") [] refl refl refl tt

is_subscriber_in_hierarchy_correct_example :
    let topic = prefix levels_in_front ++ last_level in
    let subscribes = λ (id : Str). is_subscriber_in_broker settings id topic registry in
    let others = λ (id : Str). not (str_eq id (codes "x")) in
    (b : Bool) × (is_subscriber_in_hierarchy settings (codes "x") (codes "y") topic registry
      ≡ some b)
    × (b ≡ true → (id : Str) × Route registry others (codes "y") id × (subscribes id ≡ some true))
    × (b ≡ false → (id : Str) → Route registry others (codes "y") id → subscribes id ≡ some false)
is_subscriber_in_hierarchy_correct_example =
    is_subscriber_in_hierarchy_correct settings levels_in_front last_level levels-NoSlash
      last-NoSlash last_not_pound registry (codes "x") (codes "y")

-- A route from `x` to `z` goes over `y`.
abbrev routed_fabric : Fabric
routed_fabric = record { registry = registry; routes = ((codes "x", codes "z"), codes "y") ∷ [] }

routed_fabric-Routed : Routed routed_fabric
unfolding connections_of get_connections has str_eq keys find
routed_fabric-Routed = (
  (
    refl,
    (
      codes "y" ∷ codes "z" ∷ [],
      Walk.step (codes "y") (codes "z") (codes "z") (codes "z" ∷ []) refl (Walk.here (codes "z")),
    ),
  ),
  tt,
)

fabric-Routed_example :
    let fabric = routed_fabric in
    let new = (state_of (codes "w") []).broker in
    Routed (add_broker 7 new fabric).1
    × Routed (remove_broker_from settings (codes "z") fabric).1
    × Routed (add_connection_to (codes "z") (codes "x") true fabric).1
    × Routed (remove_connection_from (codes "z") (codes "x") fabric).1
    × Routed (set_connections_of (codes "z") (codes "x" ∷ []) [] fabric).1
    × Routed (add_topic_to settings (codes "z") (codes "a/#") fabric).1
    × Routed (remove_topic_from settings (codes "z") (codes "a/#") fabric).1
    × Routed
        (swap_pending_topics_of
          (codes "z")
          (add_pending_topics_to (codes "z") (codes "x" ∷ []) 1 fabric).1).1
    × Routed (update_registration_time 7 (codes "z") fabric).1
    × Routed (remove_expired settings 7 registry fabric)
fabric-Routed_example =
    fabric-Routed settings 7 1 (state_of (codes "w") []).broker (codes "z") (codes "x")
      (codes "a/#") true (codes "x" ∷ []) [] routed_fabric routed_fabric-Routed

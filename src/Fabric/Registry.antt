-- ===== src/Fabric/Registry.antt =====
-- BrokerRegistry of src/brokerlib/brokerregistry/src/brokerregistry.cpp: what it answers about the
-- topics of a broker, and the changes of the fabric. The caches of topics are not part of it.
use opendxl_broker.Prelude.{
  Bool, true, false, Option, none, some, List, [], ◌∷◌, ◌||◌, not, Str, str_eq, find, remove, ltb,
  if◌then◌else◌,
}
use opendxl_broker.Topic.Iterate.{wildcards}
use opendxl_broker.Fabric.State.{
  Settings, BrokerState, is_topic_routing_enabled, has_topic, get_connections, remove_connection,
}

abbrev pub Registry : Type 0
Registry = List (Str × BrokerState)

-- while( CoreUtil::iterateWildcardNext( wcTopic ) )
unfoldable pub has_one_of : List Str → BrokerState → Bool
has_one_of [] state = false
has_one_of (wc_topic ∷ topics) state =
    let rest = has_one_of topics state in if has_topic wc_topic state then true else rest

-- For a broker that is registered; `none` says that the loop over the wildcards did not end.
unfoldable pub is_subscriber : Settings → Str → BrokerState → Option Bool
is_subscriber settings topic state =
    if not (is_topic_routing_enabled settings state.broker) || has_topic topic state
    then some true
    else (if ltb 0 state.subscriptions_wildcard_count
        then elim (wildcards topic) [ none ↦ none | some topics ↦ some (has_one_of topics state) ]
        else some false)

unfoldable pub is_subscriber_in_broker : Settings → Str → Str → Registry → Option Bool
is_subscriber_in_broker settings broker_id topic registry = elim (find broker_id registry) [
  | none ↦ some false
  | some state ↦ is_subscriber settings topic state
]

-- The brokers that a broker is connected to.
unfoldable pub connections_of : Registry → Str → List Str
connections_of registry id = elim (find id registry) [
  | none ↦ []
  | some state ↦ get_connections state
]

-- exists
unfoldable pub is_registered : Str → Registry → Bool
is_registered [] registry = false
is_registered (c ∷ cs) registry = elim (find (c ∷ cs) registry) [ none ↦ false | some state ↦ true ]

-- The registry's loop in removeBroker, which leaves out the local broker.
unfoldable pub remove_connections : Settings → Str → Registry → Registry
remove_connections settings id [] = []
remove_connections settings id ((key, state) ∷ registry) =
    (key, if str_eq key settings.guid then state else remove_connection id state)
    ∷ remove_connections settings id registry

unfoldable pub remove_broker : Settings → Str → Registry → Bool × Registry
remove_broker settings id registry =
    if is_registered id registry
    then (true, remove id (remove_connections settings id registry))
    else (false, registry)

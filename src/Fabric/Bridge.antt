-- ===== src/Fabric/Bridge.antt =====
-- BrokerBridgeTopicCache of src/brokerlib/brokerregistry/topiccache/src: the topics of the brokers
-- that a broker reaches over one of its bridges. The cache is built in steps, one broker at a time.
-- The order of a list is the order in which the set of brokers is walked.
pub mod Walk
pub mod Right
pub mod Build
pub mod Answer
pub mod Same
pub mod Changes
use opendxl_broker.Prelude.{
  ℕ, zero, suc, ◌+◌, Bool, true, false, Option, none, some, List, [], ◌∷◌, ◌&&◌, ◌||◌, not, Str, ℤ,
  pos, inc, dec, ltb_ℤ, str_eq, find, has, insert, erase, length, if◌then◌else◌,
}
use opendxl_broker.Topic.Iterate.{is_wildcard, wildcards}
use opendxl_broker.Fabric.State.{Settings, has_topic, is_topic_routing_enabled}
use opendxl_broker.Fabric.Registry.{Registry}
use opendxl_broker.Fabric.Hierarchy.{traverse}

pub data CacheState : Type 0 where
  start : CacheState
  building : CacheState
  completed : CacheState

-- `brokers_iter` is what is left of `brokers` from the iterator on.
pub record BridgeCache : Type 0 where
  pub broker_id : Str
  pub bridge_id : Str
  pub brokers : List Str
  pub cached_brokers : List Str
  pub topics : List Str
  pub wildcard_count : ℤ
  pub topic_routing_enabled : Bool
  pub state : CacheState
  pub brokers_iter : List Str

unfoldable pub bridge_cache : Str → Str → BridgeCache
bridge_cache broker_id bridge_id = record {
  broker_id = broker_id;
  bridge_id = bridge_id;
  brokers = [];
  cached_brokers = [];
  topics = [];
  wildcard_count = pos 0;
  topic_routing_enabled = true;
  state = start;
  brokers_iter = [];
}

-- FindBrokersVisitor::allowVisit
unfoldable pub allow_visit : Str → Str → Bool
allow_visit broker_id to = not (str_eq to broker_id)

-- FindBrokersVisitor::visit: whether it stops, where the routing by topics is disabled.
unfoldable pub find_visit : Settings → Registry → Str → Option Bool
find_visit settings registry to = elim (find to registry) [
  | none ↦ some false
  | some state ↦ some (not (is_topic_routing_enabled settings state.broker))
]

-- depthFirstTraversal with the FindBrokersVisitor: whether it stopped, and the brokers that it was
-- at, which are those that the traversal itself keeps as visited.
unfoldable pub find_brokers : Settings → Registry → Str → Str → Option (Bool × List Str)
find_brokers settings registry broker_id bridge_id =
    if allow_visit broker_id bridge_id
    then traverse registry (allow_visit broker_id) (find_visit settings registry)
        (length registry + 1) bridge_id []
    else some (false, [])

-- _addTopic
unfoldable pub cache_topic : Str → BridgeCache → BridgeCache
cache_topic topic cache = if has topic cache.topics then cache else record cache {
  topics = insert topic cache.topics;
  wildcard_count = if is_wildcard topic then inc cache.wildcard_count else cache.wildcard_count;
}

-- forEachTopic with _addTopic.
unfoldable pub cache_topics : List Str → BridgeCache → BridgeCache
cache_topics [] cache = cache
cache_topics (topic ∷ topics) cache = cache_topics topics (cache_topic topic cache)

-- The state Start of buildCacheIncrement.
unfoldable pub build_start : Settings → Registry → BridgeCache → Option BridgeCache
build_start settings registry cache =
    elim (find_brokers settings registry cache.broker_id cache.bridge_id) [
      | none ↦ none
      | some (stopped, brokers) ↦
          let enabled = not stopped && cache.topic_routing_enabled in
          some (record cache {
            brokers = brokers;
            brokers_iter = brokers;
            topic_routing_enabled = enabled;
            state =
                if enabled
                then (elim brokers [ [] ↦ completed | id ∷ ids ↦ building ])
                else completed;
          })
    ]

-- The topics of one broker, in the state Building.
unfoldable pub cache_broker : Registry → Str → BridgeCache → BridgeCache
cache_broker registry id cache = elim (find id registry) [
  | none ↦ cache
  | some state ↦
      let cache' = cache_topics state.subscriptions cache in
      record cache' { cached_brokers = insert id cache'.cached_brokers }
]

-- The iterator is moved on.
unfoldable pub build_step : List Str → BridgeCache → BridgeCache
build_step [] cache = record cache { brokers_iter = []; state = completed }
build_step (id ∷ ids) cache = record cache { brokers_iter = id ∷ ids }

-- The state Building of buildCacheIncrement; `none` is a read behind the last broker.
unfoldable pub build_next : Registry → List Str → BridgeCache → Option BridgeCache
build_next registry [] cache = none
build_next registry (id ∷ ids) cache = some (build_step ids (cache_broker registry id cache))

-- buildCacheIncrement, whose answer is whether the cache is complete. `none` says that the walk did
-- not end, or a read behind the last broker.
unfoldable pub build_cache_increment : Settings → Registry → BridgeCache → Option BridgeCache
build_cache_increment settings registry cache = elim cache.state [
  | start ↦ build_start settings registry cache
  | building ↦ build_next registry cache.brokers_iter cache
  | completed ↦ some cache
]

unfoldable pub is_complete : BridgeCache → Bool
is_complete cache = elim cache.state [ start ↦ false | building ↦ false | completed ↦ true ]

-- buildCache on fuel: while( m_state != Completed ).
unfoldable pub build_cache : Settings → Registry → ℕ → BridgeCache → Option BridgeCache
build_cache settings registry zero cache = none
build_cache settings registry (suc fuel) cache = elim (is_complete cache) [
  | true ↦ some cache
  | false ↦ elim (build_cache_increment settings registry cache) [
    | none ↦ none
    | some cache' ↦ build_cache settings registry fuel cache'
  ]
]

unfoldable pub contains_broker : Str → BridgeCache → Bool
contains_broker broker_id cache = has broker_id cache.brokers

unfoldable pub is_broker_cached : Str → BridgeCache → Bool
is_broker_cached broker_id cache =
    if is_complete cache
    then contains_broker broker_id cache
    else has broker_id cache.cached_brokers

-- BrokerRegistry::hasTopic
unfoldable pub has_topic_in_broker : Registry → Str → Str → Bool
has_topic_in_broker registry topic broker_id = elim (find broker_id registry) [
  | none ↦ false
  | some state ↦ has_topic topic state
]

-- addTopic, whose answer is whether the cache is the one for the broker.
unfoldable pub bridge_add_topic : Registry → Str → Str → BridgeCache → Bool × BridgeCache
bridge_add_topic registry broker_id topic cache =
    if contains_broker broker_id cache
    then (
      true,
      if cache.topic_routing_enabled
            && is_broker_cached broker_id cache
            && not (has topic cache.topics)
          then (if has_topic_in_broker registry topic broker_id
              then cache_topic topic cache
              else cache)
          else cache,
    )
    else (false, cache)

-- The loop in removeTopic: foundTopic.
unfoldable pub found_topic : Registry → Str → List Str → Bool
found_topic registry topic [] = false
found_topic registry topic (id ∷ ids) =
    let rest = found_topic registry topic ids in
    if has_topic_in_broker registry topic id then true else rest

unfoldable pub uncache_topic : Str → BridgeCache → BridgeCache
uncache_topic topic cache = record cache {
  topics = erase topic cache.topics;
  wildcard_count =
      if has topic cache.topics && is_wildcard topic
      then dec cache.wildcard_count
      else cache.wildcard_count;
}

-- removeTopic, whose answer is whether the cache is the one for the broker.
unfoldable pub bridge_remove_topic : Registry → Str → Str → BridgeCache → Bool × BridgeCache
bridge_remove_topic registry broker_id topic cache =
    if contains_broker broker_id cache
    then (
      true,
      if cache.topic_routing_enabled && is_broker_cached broker_id cache && has topic cache.topics
          then (if has_topic_in_broker registry topic broker_id
                || found_topic registry topic cache.cached_brokers
              then cache
              else uncache_topic topic cache)
          else cache,
    )
    else (false, cache)

-- while( CoreUtil::iterateWildcardNext( wcTopic ) )
unfoldable pub has_one : List Str → List Str → Bool
has_one [] topics = false
has_one (wc_topic ∷ wc_topics) topics =
    let rest = has_one wc_topics topics in if has wc_topic topics then true else rest

-- What isSubscriber answers for a complete cache.
unfoldable pub cached_answer : Str → BridgeCache → Option Bool
cached_answer topic cache =
    if not cache.topic_routing_enabled || has topic cache.topics
    then some true
    else (if ltb_ℤ (pos 0) cache.wildcard_count
        then elim (wildcards topic) [
          | none ↦ none
          | some topics ↦ some (has_one topics cache.topics)
        ]
        else some false)

-- isSubscriber: the cache behind the call, and its result if the cache is complete.
unfoldable pub bridge_is_subscriber :
    Settings → Registry → Str → BridgeCache → Option (BridgeCache × Option Bool)
bridge_is_subscriber settings registry topic cache =
    elim (build_cache_increment settings registry cache) [
      | none ↦ none
      | some cache' ↦ elim (is_complete cache') [
        | false ↦ some (cache', none)
        | true ↦ elim (cached_answer topic cache') [
          | none ↦ none
          | some answer ↦ some (cache', some answer)
        ]
      ]
    ]

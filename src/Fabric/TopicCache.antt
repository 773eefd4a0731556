-- ===== src/Fabric/TopicCache.antt =====
-- BrokerTopicCache and TopicCacheService of src/brokerlib/brokerregistry/topiccache/src, and the
-- operations of BrokerRegistry that use them. The order of the maps is that of the lists.
pub mod Enabled
pub mod Answer
pub mod Changes
pub mod Stale
use opendxl_broker.Prelude.{
  ℕ, ◌+◌, ◌%◌, ◌^◌, Bool, true, false, Option, none, some, List, [], ◌∷◌, ◌&&◌, ◌||◌, not, Str,
  is_empty, find, assign, ltb, ◌==◌, if◌then◌else◌,
}
use opendxl_broker.Fabric.State.{Settings, add_u32, add_topic, remove_topic, has_connection}
use opendxl_broker.Fabric.Registry.{Registry, is_registered}
use opendxl_broker.Fabric.Hierarchy.{is_subscriber_in_hierarchy}
use opendxl_broker.Fabric.Bridge.{
  BridgeCache, bridge_cache, bridge_add_topic, bridge_remove_topic, bridge_is_subscriber,
}

-- BrokerTopicCache: the caches of a broker by the bridge.
abbrev pub BrokerCache : Type 0
BrokerCache = List (Str × BridgeCache)

-- isTopicRoutingCacheEnabled and getTopicRoutingCacheClearDelay of BrokerSettings.
pub record CacheSettings : Type 0 where
  pub cache_enabled : Bool
  pub clear_delay : ℕ

pub record TopicCacheService : Type 0 where
  pub broker_cache_by_id : List (Str × BrokerCache)
  pub was_enabled : Bool
  pub enabled_time : ℕ

-- enabled, at a time.
unfoldable pub is_enabled : CacheSettings → ℕ → TopicCacheService → Bool
is_enabled settings now service =
    settings.cache_enabled && (service.enabled_time == 0 || ltb service.enabled_time now)

-- checkEnabled up to its last test: the time is reset where the cache is enabled.
unfoldable pub reset_time : CacheSettings → ℕ → TopicCacheService → TopicCacheService
reset_time settings now service =
    if is_enabled settings now service then record service { enabled_time = 0 } else service

-- clearCache, with its call of checkEnabled( true ).
unfoldable pub clear_cache : CacheSettings → ℕ → TopicCacheService → TopicCacheService
clear_cache settings now service =
    let enabled = is_enabled settings now service in
    let service' = reset_time settings now service in
    if enabled
    then record service' { was_enabled = enabled; broker_cache_by_id = [] }
    else record service' { was_enabled = enabled }

-- checkEnabled()
unfoldable pub check_enabled : CacheSettings → ℕ → TopicCacheService → Bool × TopicCacheService
check_enabled settings now service =
    let enabled = is_enabled settings now service in
    let service' = reset_time settings now service in
    let service'' =
      if not service'.was_enabled && enabled then clear_cache settings now service' else service' in
    (enabled, record service'' { was_enabled = enabled })

-- clearCacheWithDelay, for a delay of 0 to take that of the settings.
unfoldable pub clear_cache_with_delay :
    CacheSettings → ℕ → ℕ → TopicCacheService → TopicCacheService
clear_cache_with_delay settings now delay service =
    let d = if delay == 0 then settings.clear_delay else delay in
    record (clear_cache settings now service) { enabled_time = if d == 0 then 0 else add_u32 now d }

-- BrokerRegistry::hasConnection
unfoldable pub has_connection_to : Registry → Str → Str → Bool
has_connection_to registry broker_id connection_id =
    if not (is_empty broker_id) && not (is_empty connection_id)
    then elim (find broker_id registry) [
      | none ↦ false
      | some state ↦ has_connection connection_id state
    ]
    else false

-- getBridgeCache; the entry is put in by its caller.
unfoldable pub get_bridge_cache : Registry → Str → Str → BrokerCache → Option BridgeCache
get_bridge_cache registry broker_id bridge_id caches = elim (find bridge_id caches) [
  | some cache ↦ some cache
  | none ↦
      if has_connection_to registry broker_id bridge_id
      then some (bridge_cache broker_id bridge_id)
      else none
]

-- getBrokerCache; the entry is put in by its caller.
unfoldable pub get_broker_cache : Registry → Str → List (Str × BrokerCache) → Option BrokerCache
get_broker_cache registry broker_id caches = elim (find broker_id caches) [
  | some cache ↦ some cache
  | none ↦ if is_registered broker_id registry then some [] else none
]

-- BrokerTopicCache::addTopic and removeTopic: the loop ends at the first cache that is the one for
-- the broker.
unfoldable pub first_change : (BridgeCache → Bool × BridgeCache) → BrokerCache → BrokerCache
first_change change [] = []
first_change change ((bridge_id, cache) ∷ caches) =
    let res = change cache in
    let rest = first_change change caches in (bridge_id, res.1) ∷ (if res.0 then caches else rest)

-- The loop over the caches of all brokers.
unfoldable pub each_broker :
    (BrokerCache → BrokerCache) → List (Str × BrokerCache) → List (Str × BrokerCache)
each_broker change [] = []
each_broker change ((id, caches) ∷ rest) = (id, change caches) ∷ each_broker change rest

-- TopicCacheService::addTopic and removeTopic, for the change that they make to each broker.
unfoldable pub change_caches :
    CacheSettings → ℕ → (BrokerCache → BrokerCache) → TopicCacheService → TopicCacheService
change_caches settings now change service =
    let res = check_enabled settings now service in
    if res.0
    then record res.1 { broker_cache_by_id = each_broker change res.1.broker_cache_by_id }
    else res.1

-- TopicCacheService::isSubscriber: the service behind the call, and the answer, if it has one.
unfoldable pub service_is_subscriber :
    Settings
    → CacheSettings
    → ℕ
    → Registry
    → Str
    → Str
    → Str
    → TopicCacheService
    → Option (TopicCacheService × Option Bool)
service_is_subscriber settings cache_settings now registry broker_id bridge_id topic service =
    let res = check_enabled cache_settings now service in
    if res.0
    then elim (get_broker_cache registry broker_id res.1.broker_cache_by_id) [
      | none ↦ some (res.1, none)
      | some caches ↦ elim (get_bridge_cache registry broker_id bridge_id caches) [
        | none ↦ some (
          record res.1 { broker_cache_by_id = assign broker_id caches res.1.broker_cache_by_id },
          none,
        )
        | some cache ↦ elim (bridge_is_subscriber settings registry topic cache) [
          | none ↦ none
          | some (cache', answer) ↦ some (
            record res.1 {
              broker_cache_by_id =
                  assign broker_id (assign bridge_id cache' caches) res.1.broker_cache_by_id;
            },
            answer,
          )
        ]
      ]
    ]
    else some (res.1, none)

-- BrokerRegistry::isSubscriberInHierarchy with the cache of topics.
unfoldable pub is_subscriber_cached :
    Settings
    → CacheSettings
    → ℕ
    → Registry
    → Str
    → Str
    → Str
    → TopicCacheService
    → Option (TopicCacheService × Bool)
is_subscriber_cached settings cache_settings now registry broker_id connection topic service =
    elim (service_is_subscriber settings cache_settings now registry broker_id connection topic
      service) [
        | none ↦ none
        | some (service', some found) ↦ some (service', found)
        | some (service', none) ↦
            elim (is_subscriber_in_hierarchy settings broker_id connection topic registry) [
              | none ↦ none
              | some found ↦ some (service', found)
            ]
      ]

-- BrokerRegistry::addTopic with the cache of topics.
unfoldable pub add_topic_cached :
    Settings
    → CacheSettings
    → ℕ
    → Str
    → Str
    → Registry
    → TopicCacheService
    → Bool × Registry × TopicCacheService
add_topic_cached settings cache_settings now id topic registry service = elim (find id registry) [
  | none ↦ (false, registry, service)
  | some state ↦
      let registry' = assign id (add_topic settings topic state).1 registry in
      if (add_topic settings topic state).0
      then (
        true,
        registry',
        change_caches cache_settings now (first_change (bridge_add_topic registry' id topic))
            service,
      )
      else (false, registry', service)
]

-- BrokerRegistry::removeTopic with the cache of topics.
unfoldable pub remove_topic_cached :
    Settings
    → CacheSettings
    → ℕ
    → Str
    → Str
    → Registry
    → TopicCacheService
    → Bool × Registry × TopicCacheService
remove_topic_cached settings cache_settings now id topic registry service =
    elim (find id registry) [
      | none ↦ (false, registry, service)
      | some state ↦
          let registry' = assign id (remove_topic settings topic state).1 registry in
          if (remove_topic settings topic state).0
          then (
            true,
            registry',
            change_caches cache_settings now (first_change (bridge_remove_topic registry' id topic))
                service,
          )
          else (false, registry', service)
    ]

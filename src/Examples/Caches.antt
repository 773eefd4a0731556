-- ===== src/Examples/Caches.antt =====
-- The cache of topics at concrete inputs.
use opendxl_broker.Prelude.{
  ℕ, ◌≡◌, ◌≢◌, refl, inl, Bool, true, false, some, List, [], ◌∷◌, ◌++◌, Str, All, codes, find,
  str_eq, has, insert, keys, assign, pos, arith,
}
use opendxl_broker.Topic.Wildcards.{pound_char}
use opendxl_broker.Topic.Covers.{prefix, coverings, NoSlash}
use opendxl_broker.Topic.Iterate.{is_wildcard}
use opendxl_broker.Fabric.State.{
  Settings, BrokerState, add_topic, get_connections, is_topic_routing_enabled, is_local_broker,
}
use opendxl_broker.Fabric.Registry.{Registry, connections_of}
use opendxl_broker.Fabric.Counted.{wildcards_in, TopicsCounted}
use opendxl_broker.Fabric.Hierarchy.{is_subscriber_in_hierarchy, traverse, traverse_connections}
use opendxl_broker.Fabric.Bridge.{
  BridgeCache, bridge_cache, build_cache, contains_broker, bridge_add_topic, cached_answer, has_one,
  is_complete, completed, build_cache_increment, build_start, build_next, build_step, cache_broker,
  cache_topics, cache_topic, find_brokers, allow_visit, find_visit,
}
use opendxl_broker.Fabric.Bridge.Answer.{RegistryCounted}
use opendxl_broker.Fabric.Bridge.Build.Ends.{Ends, build_cache-Built}
use opendxl_broker.Fabric.Bridge.Changes.{added}
use opendxl_broker.Fabric.TopicCache.{
  CacheSettings, TopicCacheService, is_subscriber_cached, add_topic_cached, remove_topic_cached,
  clear_cache_with_delay, first_change,
}
use opendxl_broker.Fabric.TopicCache.Enabled.{ServiceRight}
use opendxl_broker.Fabric.TopicCache.Answer.{is_subscriber_cached-hierarchy}
use opendxl_broker.Fabric.TopicCache.Changes.{topics_cached-ServiceRight}
use opendxl_broker.Fabric.TopicCache.Stale.{first_change_stale}

abbrev settings : Settings
settings = record { guid = codes "x"; ttl_grace_period_mins = 5; topic_routing_enabled = true }

abbrev state_of : Str → List (Str × ℕ) → BrokerState
state_of id connections = record {
  broker = record {
    id = id;
    hostname = codes "host";
    port = 8883;
    ttl = 60;
    start_time = 10;
    connection_limit = 100;
    topic_routing_enabled = true;
  };
  counted_connections = connections;
  child_connections = [];
  subscriptions = codes "a/#" ∷ codes "b" ∷ [];
  subscriptions_wildcard_count = 1;
  pending_subscriptions = [];
  pending_subscriptions_wildcard_count = 0;
  subscriptions_change_count = 0;
  reg_time = 0;
}

-- Three brokers, each connected to the two others.
abbrev x_state : BrokerState
x_state = state_of (codes "x") ((codes "y", 1) ∷ (codes "z", 1) ∷ [])

abbrev y_state : BrokerState
y_state = state_of (codes "y") ((codes "x", 1) ∷ (codes "z", 1) ∷ [])

abbrev z_state : BrokerState
z_state = state_of (codes "z") ((codes "x", 1) ∷ (codes "y", 1) ∷ [])

abbrev triangle : Registry
triangle = (codes "x", x_state) ∷ (codes "y", y_state) ∷ (codes "z", z_state) ∷ []

triangle-RegistryCounted : RegistryCounted triangle
unfolding wildcards_in is_wildcard has str_eq
triangle-RegistryCounted =
    let counted : TopicsCounted x_state = (((refl, (refl, tt)), refl), (tt, refl)) in
    ((counted, omega arith), ((counted, omega arith), ((counted, omega arith), tt)))

-- The topic `q/r`.
abbrev fronts : List Str
fronts = codes "q" ∷ []

abbrev last : Str
last = codes "r"

fronts-NoSlash : All NoSlash fronts
fronts-NoSlash = ((omega arith, tt), tt)

last-NoSlash : NoSlash last
last-NoSlash = (omega arith, tt)

last_ne : last ≢ (pound_char ∷ [])
last_ne e = cc

abbrev service : TopicCacheService
service = record {
  broker_cache_by_id = (codes "x", (codes "y", bridge_cache (codes "x") (codes "y")) ∷ []) ∷ [];
  was_enabled = true;
  enabled_time = 0;
}

abbrev cache_settings : CacheSettings
cache_settings = record { cache_enabled = true; clear_delay = 10 }

service-ServiceRight : ServiceRight settings triangle service
unfolding bridge_cache
service-ServiceRight _ = (((refl, refl, inl refl), tt), tt)

build_cache-Built_example :
    (fuel : ℕ) × Ends settings triangle fuel (bridge_cache (codes "x") (codes "y"))
unfolding bridge_cache
build_cache-Built_example =
    build_cache-Built settings triangle (bridge_cache (codes "x") (codes "y")) (inl refl)

is_subscriber_cached-hierarchy_example :
    (s : TopicCacheService) × (a : Bool) × (is_subscriber_cached settings cache_settings 7 triangle
        (codes "x")
        (codes "y")
        (prefix fronts ++ last)
        service
      ≡ some (s, a))
    × ServiceRight settings triangle s
    × (is_subscriber_in_hierarchy settings (codes "x") (codes "y") (prefix fronts ++ last) triangle
        ≡ some a)
is_subscriber_cached-hierarchy_example =
    is_subscriber_cached-hierarchy settings cache_settings 7 fronts last fronts-NoSlash last-NoSlash
      last_ne triangle triangle-RegistryCounted (codes "x") (codes "y") service service-ServiceRight

topics_cached-ServiceRight_example :
    let a = add_topic_cached settings cache_settings 7 (codes "z") (codes "q/r") triangle service in
    let b =
      remove_topic_cached settings cache_settings 7 (codes "z") (codes "q/r") triangle service in
    ServiceRight settings a.1 a.2
    × ServiceRight settings b.1 b.2
    × ServiceRight settings [] (clear_cache_with_delay cache_settings 7 0 service)
topics_cached-ServiceRight_example =
    topics_cached-ServiceRight settings cache_settings 7 (codes "z") (codes "q/r") triangle service
      (((λ _. tt), tt), tt) service-ServiceRight [] 0

-- The caches of `x` for its two bridges, before `z` has the topic.
abbrev first : BridgeCache
first = record (bridge_cache (codes "x") (codes "y")) { brokers = codes "z" ∷ codes "y" ∷ [] }

abbrev second : BridgeCache
second = record {
  broker_id = codes "x";
  bridge_id = codes "z";
  brokers = codes "y" ∷ codes "z" ∷ [];
  cached_brokers = codes "z" ∷ codes "y" ∷ [];
  topics = codes "b" ∷ codes "a/#" ∷ [];
  wildcard_count = pos 1;
  topic_routing_enabled = true;
  state = completed;
  brokers_iter = [];
}

second_built : build_cache settings triangle 4 (bridge_cache (codes "x") (codes "z")) ≡ some second
unfolding build_cache build_cache_increment bridge_cache build_start build_next build_step
    cache_broker cache_topics cache_topic find_brokers traverse traverse_connections allow_visit
    find_visit connections_of get_connections is_complete is_wildcard is_topic_routing_enabled
    is_local_broker find has insert keys str_eq
second_built = refl

z_registered : find (codes "z") triangle ≡ some z_state
unfolding find str_eq
z_registered = refl

abbrev told : Registry
told = added settings (prefix fronts ++ last) (codes "z") triangle z_state z_registered

told-RegistryCounted : RegistryCounted told
unfolding wildcards_in is_wildcard has str_eq assign add_topic insert prefix
told-RegistryCounted =
    let counted : TopicsCounted x_state = (((refl, (refl, tt)), refl), (tt, refl)) in
    (
      (counted, omega arith),
      (
        (counted, omega arith),
        (((((refl, (refl, (refl, tt))), refl), (tt, refl)), omega arith), tt),
      ),
    )

first_change_stale_example :
    let topic = prefix fronts ++ last in
    let add = bridge_add_topic told (codes "z") topic in
    (first_change add ((codes "y", first) ∷ (codes "z", second) ∷ [])
      ≡ (codes "y", (add first).1) ∷ (codes "z", second) ∷ [])
    × (cached_answer topic second ≡ some false)
    × (is_subscriber_in_hierarchy settings (codes "x") (codes "z") topic told ≡ some true)
unfolding contains_broker has str_eq bridge_cache has_one coverings prefix
first_change_stale_example =
    first_change_stale settings fronts last fronts-NoSlash last-NoSlash last_ne (codes "z") triangle
      z_state z_registered 4 (codes "x") (codes "z") (codes "y") (codes "z") first second [] refl
      second_built refl refl refl told-RegistryCounted

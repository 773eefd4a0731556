-- ===== src/Fabric/TopicCache/Changes.antt =====
-- The cache of topics behind a topic that is added or removed, and behind a clearing.
use opendxl_broker.Prelude.{
  ℕ, ◌≡◌, refl, sym, ap, subst, ◌∙◌, inl, inr, Bool, true, false, some, List, [], ◌∷◌, Str, All,
  str_eq, find, assign, has, arith, Bool-cases, Option-cases,
}
use opendxl_broker.Fabric.State.{Settings, BrokerState, add_topic, remove_topic}
use opendxl_broker.Fabric.Registry.{Registry}
use opendxl_broker.Fabric.Bridge.{
  BridgeCache, contains_broker, bridge_add_topic, bridge_remove_topic,
}
use opendxl_broker.Fabric.Bridge.Right.{CacheRight, cache_topic-Kept}
use opendxl_broker.Fabric.Bridge.Changes.{added, removed, uncache_topic-Kept}
use opendxl_broker.Fabric.Bridge.Changes.Removed.{bridge_topics-CacheRight}
use opendxl_broker.Fabric.TopicCache.{
  BrokerCache, CacheSettings, TopicCacheService, check_enabled, clear_cache_with_delay,
  first_change, each_broker, change_caches, add_topic_cached, remove_topic_cached,
}
use opendxl_broker.Fabric.TopicCache.Enabled.{
  BrokerRight, AllRight, ServiceRight, check_enabled-ServiceRight, check_enabled-caches,
  clear_cache-ServiceRight,
}

-- At most one cache of the broker contains another broker.
abbrev pub AtMostOne : Str → BrokerCache → Type 0
AtMostOne id [] = Unit {0}
AtMostOne id ((bridge, cache) ∷ caches) =
    (contains_broker id cache ≡ true → All (λ e. contains_broker id e.1 ≡ false) caches)
    × AtMostOne id caches

module _ (r : Registry) (id topic : Str) (c : BridgeCache) where
  names-kept :
      ((bridge_add_topic r id topic c).1.broker_id ≡ c.broker_id)
      × ((bridge_add_topic r id topic c).1.bridge_id ≡ c.bridge_id)
      × ((bridge_remove_topic r id topic c).1.broker_id ≡ c.broker_id)
      × ((bridge_remove_topic r id topic c).1.bridge_id ≡ c.bridge_id)
  unfolding bridge_add_topic bridge_remove_topic
  names-kept = ground (arith, cache_topic-Kept topic c, uncache_topic-Kept topic c)

  -- A cache that does not contain the broker is left, and says so.
  not_for :
      contains_broker id c ≡ false
      → (bridge_add_topic r id topic c ≡ (false, c))
        × (bridge_remove_topic r id topic c ≡ (false, c))
  unfolding bridge_add_topic bridge_remove_topic
  not_for e = (rw e refl, rw e refl)

  is_for :
      contains_broker id c ≡ true
      → ((bridge_add_topic r id topic c).0 ≡ true) × ((bridge_remove_topic r id topic c).0 ≡ true)
  unfolding bridge_add_topic bridge_remove_topic
  is_for e = (rw e refl, rw e refl)

-- For the addition and the removal alike: each cache is right behind its own change.
module _ (settings : Settings) (r s : Registry) (id : Str)
    (change : BridgeCache → Bool × BridgeCache)
    (keeps : (c : BridgeCache) → CacheRight settings r c → CacheRight settings s (change c).1)
    (names : (c : BridgeCache)
      → ((change c).1.broker_id ≡ c.broker_id) × ((change c).1.bridge_id ≡ c.bridge_id))
    (off : (c : BridgeCache) → contains_broker id c ≡ false → change c ≡ (false, c)) where
  changed :
      (b k : Str) (c : BridgeCache)
      → ((c.broker_id ≡ b) × (c.bridge_id ≡ k) × CacheRight settings r c)
      → ((change c).1.broker_id ≡ b)
        × ((change c).1.bridge_id ≡ k)
        × CacheRight settings s (change c).1
  changed b k c h = ((names c).0 ∙ h.0, (names c).1 ∙ h.1, keeps c h.2)

  -- Caches without the broker are right for the changed registry as they are.
  untouched :
      (b : Str) (caches : BrokerCache)
      → All (λ e. contains_broker id e.1 ≡ false) caches
      → BrokerRight settings r b caches
      → BrokerRight settings s b caches
  untouched b [] a h = tt
  untouched b ((k, c) ∷ caches) a h = (
    (
      h.0.0,
      h.0.1,
      subst (λ (x : Bool × BridgeCache). CacheRight settings s x.1) (off c a.0) (keeps c h.0.2),
    ),
    untouched b caches a.1 h.1,
  )

  first_change-BrokerRight :
      (on : (c : BridgeCache) → contains_broker id c ≡ true → (change c).0 ≡ true) (b : Str)
      (caches : BrokerCache)
      → AtMostOne id caches
      → BrokerRight settings r b caches
      → BrokerRight settings s b (first_change change caches)
  unfolding first_change
  first_change-BrokerRight on b [] a h = tt
  first_change-BrokerRight on b ((k, c) ∷ caches) a h = elim (Bool-cases (contains_broker id c)) [
    | inl e ↦ rw (on c e) (changed b k c h.0, untouched b caches (a.0 e) h.1)
    | inr e ↦
        rw (ap (λ (x : Bool × BridgeCache). x.0) (off c e))
          (changed b k c h.0, first_change-BrokerRight on b caches a.1 h.1)
  ]

  each_broker-AllRight :
      (on : (c : BridgeCache) → contains_broker id c ≡ true → (change c).0 ≡ true)
      (all : List (Str × BrokerCache))
      → All (λ b. AtMostOne id b.1) all
      → AllRight settings r all
      → AllRight settings s (each_broker (first_change change) all)
  unfolding each_broker
  each_broker-AllRight on [] a h = tt
  each_broker-AllRight on ((b, caches) ∷ rest) a h =
      (first_change-BrokerRight on b caches a.0 h.0, each_broker-AllRight on rest a.1 h.1)

  module _ (cache_settings : CacheSettings) (now : ℕ) where
    check_enabled-AtMostOne :
        (service : TopicCacheService)
        → All (λ b. AtMostOne id b.1) service.broker_cache_by_id
        → All
            (λ b. AtMostOne id b.1)
            (check_enabled cache_settings now service).1.broker_cache_by_id
    check_enabled-AtMostOne service a =
        elim (check_enabled-caches settings r cache_settings now service) [
          | inl e ↦ subst (All (λ b. AtMostOne id b.1)) (sym e) a
          | inr e ↦ subst (All (λ (b : Str × BrokerCache). AtMostOne id b.1)) (sym e) tt
        ]

    change_caches-ServiceRight :
        (on : (c : BridgeCache) → contains_broker id c ≡ true → (change c).0 ≡ true)
        (service : TopicCacheService)
        → All (λ b. AtMostOne id b.1) service.broker_cache_by_id
        → ServiceRight settings r service
        → ServiceRight settings s (change_caches cache_settings now (first_change change) service)
    unfolding change_caches
    change_caches-ServiceRight on service a h =
        let (all, was) = check_enabled-ServiceRight settings r cache_settings now service h in
        elim (Bool-cases (check_enabled cache_settings now service).0) [
          | inl e ↦ rw e (λ _.
              each_broker-AllRight on
                (check_enabled cache_settings now service).1.broker_cache_by_id
                (check_enabled-AtMostOne service a) (all e))
          | inr e ↦ rw e (λ k. absurd (ground (arith, k, was, e)))
        ]

assign-find_same : (k : Str) (v : BrokerState) (m : Registry) → find k m ≡ some v → assign k v m ≡ m
unfolding find assign
assign-find_same k v [] e = cc
assign-find_same k v ((l, w) ∷ m) e = elim (Bool-cases (str_eq l k)) [
  | inl f ↦ let same : w ≡ v = ground (arith, e, f) in rw (f, same) refl
  | inr f ↦ rw (f, assign-find_same k v m (ground (arith, e, f))) refl
]

add_topic-refused :
    (settings : Settings) (topic : Str) (state : BrokerState)
    → ((add_topic settings topic state).0 ≡ false → (add_topic settings topic state).1 ≡ state)
      × ((remove_topic settings topic state).0 ≡ false
          → (remove_topic settings topic state).1 ≡ state)
unfolding add_topic remove_topic
add_topic-refused settings topic state = elim (Bool-cases (has topic state.subscriptions)) [
  | inl e ↦ rw e ((λ _. refl), λ h. absurd (ground (arith, h)))
  | inr e ↦ rw e ((λ h. absurd (ground (arith, h))), λ _. refl)
]

-- A change that is refused leaves the registry.
ServiceRight-refused :
    (settings : Settings) (id : Str) (state new : BrokerState) (r : Registry)
    (service : TopicCacheService)
    → find id r ≡ some state
    → new ≡ state
    → ServiceRight settings r service
    → ServiceRight settings (assign id new r) service
ServiceRight-refused settings id state new r service e same h =
    subst (λ x. ServiceRight settings x service)
      (sym (ap (λ x. assign id x r) same ∙ assign-find_same id state r e)) h

module _ (settings : Settings) (cache_settings : CacheSettings) (now : ℕ) (id topic : Str)
    (registry : Registry) (service : TopicCacheService)
    (one : All (λ b. AtMostOne id b.1) service.broker_cache_by_id)
    (right : ServiceRight settings registry service) where
  add_topic_cached-ServiceRight :
      let res = add_topic_cached settings cache_settings now id topic registry service in
      ServiceRight settings res.1 res.2
  unfolding add_topic_cached
  add_topic_cached-ServiceRight = elim (Option-cases (find id registry)) [
    | inl e ↦ rw (e, add_topic_cached) right
    | inr (state, e) ↦
        let s = added settings topic id registry state e in
        elim (Bool-cases (add_topic settings topic state).0) [
          | inl f ↦
              rw (e, add_topic_cached)
                (rw f (
                  change_caches-ServiceRight settings registry s id (bridge_add_topic s id topic)
                    (λ c h. (bridge_topics-CacheRight settings topic id registry state e c h).0)
                    (λ c. ((names-kept s id topic c).0, (names-kept s id topic c).1))
                    (λ c k. (not_for s id topic c k).0) cache_settings now
                    (λ c k. (is_for s id topic c k).0) service one right))
          | inr f ↦
              rw (e, add_topic_cached)
                (rw f (
                  ServiceRight-refused settings id state (add_topic settings topic state).1 registry
                    service e ((add_topic-refused settings topic state).0 f) right))
        ]
  ]

  remove_topic_cached-ServiceRight :
      let res = remove_topic_cached settings cache_settings now id topic registry service in
      ServiceRight settings res.1 res.2
  unfolding remove_topic_cached
  remove_topic_cached-ServiceRight = elim (Option-cases (find id registry)) [
    | inl e ↦ rw (e, remove_topic_cached) right
    | inr (state, e) ↦
        let s = removed settings topic id registry state e in
        elim (Bool-cases (remove_topic settings topic state).0) [
          | inl f ↦
              rw (e, remove_topic_cached)
                (rw f (
                  change_caches-ServiceRight settings registry s id (bridge_remove_topic s id topic)
                    (λ c h. (bridge_topics-CacheRight settings topic id registry state e c h).1)
                    (λ c. ((names-kept s id topic c).2, (names-kept s id topic c).3))
                    (λ c k. (not_for s id topic c k).1) cache_settings now
                    (λ c k. (is_for s id topic c k).1) service one right))
          | inr f ↦
              rw (e, remove_topic_cached)
                (rw f (
                  ServiceRight-refused settings id state (remove_topic settings topic state).1
                    registry service e ((add_topic-refused settings topic state).1 f) right))
        ]
  ]

  -- A cache for a bridge is right for a registry if it is not begun; or it is complete, and
  -- behind its bridge is a broker with the routing by topics disabled; or it has just the brokers
  -- behind its bridge, none of which has it disabled, the topics of those that it has gone
  -- through without doubles, and the count of their wildcards. For a service that, if it was
  -- enabled, has only right caches, of which at most one of each broker contains a given broker:
  -- this also holds, for the registry behind it, after addTopic and after removeTopic of any
  -- topic of the given broker; and it holds for any registry after clearCacheWithDelay of any
  -- service.
  pub topics_cached-ServiceRight :
      (other : Registry) (delay : ℕ)
      → let a = add_topic_cached settings cache_settings now id topic registry service in
        let b = remove_topic_cached settings cache_settings now id topic registry service in
        ServiceRight settings a.1 a.2
        × ServiceRight settings b.1 b.2
        × ServiceRight settings other (clear_cache_with_delay cache_settings now delay service)
  topics_cached-ServiceRight other delay = (
    add_topic_cached-ServiceRight,
    remove_topic_cached-ServiceRight,
    (clear_cache-ServiceRight settings other cache_settings now delay service).1,
  )

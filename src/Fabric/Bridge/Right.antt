-- ===== src/Fabric/Bridge/Right.antt =====
-- When a cache of topics is right for a registry, and that the steps of its building keep it so.
use opendxl_broker.Prelude.{
  ℕ, ◌+◌, ◌≡◌, sym, ap, ◌∙◌, ◌⊎◌, inl, inr, Bool, true, false, none, List, [], ◌∷◌, ◌||◌, Str, ℤ,
  pos, inc, str_eq, str_eq→eq, has, insert, find, if◌then◌else◌, arith, Bool-cases,
}
use opendxl_broker.Topic.Iterate.{is_wildcard}
use opendxl_broker.Fabric.State.{Settings}
use opendxl_broker.Fabric.Registry.{Registry}
use opendxl_broker.Fabric.Counted.{wildcards_in, Distinct}
use opendxl_broker.Fabric.Bridge.{
  BridgeCache, building, completed, bridge_cache, cache_topic, cache_topics, has_topic_in_broker,
  found_topic,
}
use opendxl_broker.Fabric.Bridge.Walk.{AllFound, OneDisabled}

-- Topics with the count of their wildcards, which are those that pass a test.
abbrev pub Holds : List Str → ℤ → (Str → Bool) → Type 0
Holds topics count test =
    Distinct topics × (count ≡ pos (wildcards_in topics)) × ((t : Str) → has t topics ≡ test t)

-- The topics are those of the brokers that are cached.
abbrev pub TopicsRight : Registry → BridgeCache → List Str → Type 0
TopicsRight registry cache cached =
    Holds cache.topics cache.wildcard_count (λ t. found_topic registry t cached)

-- The brokers are the cached ones, those that are left, and perhaps some without a registration.
pub record BrokersRight (registry : Registry) (brokers cached left : List Str) : Type 0 where
  pub cached_in : (x : Str) → has x cached ≡ true → has x brokers ≡ true
  pub left_in : (x : Str) → has x left ≡ true → has x brokers ≡ true
  pub all :
      (x : Str)
      → has x brokers ≡ true
      → (has x cached ≡ true) ⊎ ((has x left ≡ true) ⊎ (find x registry ≡ none))

abbrev pub Stage : BridgeCache → Type 0
Stage cache =
    ((cache.state ≡ completed) × (cache.brokers_iter ≡ []))
    ⊎ ((cache.state ≡ building) × (id : Str) × (ids : List Str) × (cache.brokers_iter ≡ id ∷ ids))

pub record Found (settings : Settings) (registry : Registry) (cache : BridgeCache) : Type 0 where
  pub enabled : cache.topic_routing_enabled ≡ true
  pub brokers_right : AllFound settings registry cache.broker_id cache.bridge_id cache.brokers
  pub topics_right : TopicsRight registry cache cache.cached_brokers
  pub split : BrokersRight registry cache.brokers cache.cached_brokers cache.brokers_iter
  pub stage : Stage cache

pub record Disabled (settings : Settings) (registry : Registry) (cache : BridgeCache) : Type 0 where
  pub disabled : cache.topic_routing_enabled ≡ false
  pub complete : cache.state ≡ completed
  pub one : OneDisabled settings registry cache.broker_id cache.bridge_id

-- A cache that is not begun, one behind whose bridge the routing by topics is disabled, or one with
-- all brokers on the routes behind its bridge and the topics of those that were gone through.
abbrev pub CacheRight : Settings → Registry → BridgeCache → Type 0
CacheRight settings registry cache =
    (cache ≡ bridge_cache cache.broker_id cache.bridge_id)
    ⊎ (Disabled settings registry cache ⊎ Found settings registry cache)

pub inc-pos :
    (b : Bool) (c : ℤ) (n : ℕ)
    → c ≡ pos n
    → (if b then inc c else c) ≡ pos ((if b then 1 else 0) + n)
inc-pos true c n e = rw e (ap pos (omega arith))
inc-pos false c n e = rw e (ap pos (omega arith))

pub found_topic-has :
    (registry : Registry) (t id : Str) (ids : List Str)
    → has id ids ≡ true
    → has_topic_in_broker registry t id ≡ true
    → found_topic registry t ids ≡ true
unfolding found_topic has
found_topic-has registry t id [] h e = h
found_topic-has registry t id (x ∷ ids) h e = elim (Bool-cases (str_eq x id)) [
  | inl f ↦ ground (arith, ap (has_topic_in_broker registry t) (str_eq→eq x id f), e)
  | inr f ↦ ground (arith, found_topic-has registry t id ids, h, e, f)
]

pub found_topic-insert :
    (registry : Registry) (t id : Str) (ids : List Str)
    → found_topic registry t (insert id ids)
      ≡ (has_topic_in_broker registry t id || found_topic registry t ids)
unfolding found_topic insert
found_topic-insert registry t id ids = elim (Bool-cases (has id ids)) [
  | inl e ↦ rw e (ground (arith, found_topic-has registry t id ids e))
  | inr e ↦ rw e (ground arith)
]

pub Holds-same :
    (topics : List Str) (count : ℤ) (p q : Str → Bool)
    → ((t : Str) → p t ≡ q t)
    → Holds topics count p
    → Holds topics count q
Holds-same topics count p q same (d, c, h) = (d, c, λ t. h t ∙ same t)

-- One topic is taken into the cache.
pub cache_topic-Holds :
    (topic : Str) (cache : BridgeCache) (p : Str → Bool)
    → Holds cache.topics cache.wildcard_count p
    → Holds
        (cache_topic topic cache).topics
        (cache_topic topic cache).wildcard_count
        (λ t. str_eq topic t || p t)
unfolding cache_topic
cache_topic-Holds topic cache p (d, c, h) = elim (Bool-cases (has topic cache.topics)) [
  | inl e ↦ rw e (
    d,
    c,
    λ t. elim (Bool-cases (str_eq topic t)) [
      | inl f ↦ rw f (ap (λ y. has y cache.topics) (sym (str_eq→eq topic t f)) ∙ e)
      | inr f ↦ rw f (h t)
    ],
  )
  | inr e ↦ rw e (
      unfold insert in
      rw e (
        (e, d),
        unfold wildcards_in in
            inc-pos (is_wildcard topic) cache.wildcard_count (wildcards_in cache.topics) c,
        λ t. unfold has in ground (arith, h t),
      ))
]

-- What stays the same.
pub record Kept (c d : BridgeCache) : Type 0 where
  pub broker_id : d.broker_id ≡ c.broker_id
  pub bridge_id : d.bridge_id ≡ c.bridge_id
  pub brokers : d.brokers ≡ c.brokers
  pub cached_brokers : d.cached_brokers ≡ c.cached_brokers
  pub enabled : d.topic_routing_enabled ≡ c.topic_routing_enabled
  pub state : d.state ≡ c.state
  pub brokers_iter : d.brokers_iter ≡ c.brokers_iter

pub cache_topic-Kept : (topic : Str) (cache : BridgeCache) → Kept cache (cache_topic topic cache)
unfolding cache_topic
cache_topic-Kept topic cache = ground arith

pub cache_topics-Kept :
    (topics : List Str) (cache : BridgeCache) → Kept cache (cache_topics topics cache)
unfolding cache_topics
cache_topics-Kept [] cache = ground arith
cache_topics-Kept (t ∷ ts) cache =
    ground (arith, cache_topic-Kept t cache, cache_topics-Kept ts (cache_topic t cache))

pub cache_topics-Holds :
    (topics : List Str) (cache : BridgeCache) (p : Str → Bool)
    → Holds cache.topics cache.wildcard_count p
    → Holds
        (cache_topics topics cache).topics
        (cache_topics topics cache).wildcard_count
        (λ t. has t topics || p t)
unfolding cache_topics has
cache_topics-Holds [] cache p h = h
cache_topics-Holds (x ∷ ts) cache p h =
    let c = cache_topics ts (cache_topic x cache) in
    Holds-same c.topics c.wildcard_count (λ t. has t ts || (str_eq x t || p t))
      (λ t. has t (x ∷ ts) || p t) (λ t. ground arith)
      (cache_topics-Holds ts (cache_topic x cache) (λ t. str_eq x t || p t)
        (cache_topic-Holds x cache p h))

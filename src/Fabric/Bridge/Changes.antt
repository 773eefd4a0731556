-- ===== src/Fabric/Bridge/Changes.antt =====
-- A topic of a broker that is added or removed, in the registry and then in a cache of topics.
pub mod Added
pub mod Removed
use opendxl_broker.Prelude.{
  ◌+◌, ◌≡◌, refl, sym, ap, subst, ◌∙◌, ◌⊎◌, inl, inr, Bool, true, false, Option, none, some, List,
  [], ◌∷◌, ◌||◌, ◌&&◌, not, Str, ℤ, pos, dec, str_eq, str_eq→eq, str_eq_refl, has, erase,
  has-insert, has-erase, find, assign, if◌then◌else◌, arith, Bool-cases, Option-cases,
}
use opendxl_broker.Topic.Iterate.{is_wildcard}
use opendxl_broker.Fabric.State.{
  Settings, BrokerState, has_topic, get_connections, add_topic, remove_topic,
}
use opendxl_broker.Fabric.Registry.{Registry}
use opendxl_broker.Fabric.Counted.{wildcards_in, Distinct, erase-Distinct, wildcards_in-erase}
use opendxl_broker.Fabric.Changes.Routed.{add_topic-connections}
use opendxl_broker.Fabric.Bridge.{
  BridgeCache, start, building, completed, bridge_cache, cache_topic, uncache_topic, is_complete,
  contains_broker, is_broker_cached, has_topic_in_broker, found_topic, bridge_add_topic,
  bridge_remove_topic,
}
use opendxl_broker.Fabric.Bridge.Right.{
  Holds, TopicsRight, Found, Disabled, CacheRight, Kept, Stage, Holds-same, found_topic-has,
  cache_topic-Holds, cache_topic-Kept,
}
use opendxl_broker.Fabric.Bridge.Same.{
  find-at, find-same, Disabled-kept, Found-kept, found_topic-other, found_topic-same,
}

pub Kept_self : (c : BridgeCache) → Kept c c
Kept_self c = record {
  broker_id = refl;
  bridge_id = refl;
  brokers = refl;
  cached_brokers = refl;
  enabled = refl;
  state = refl;
  brokers_iter = refl;
}

-- A broker counts as cached exactly if it is among the cached ones.
module _ (settings : Settings) (r : Registry) (id : Str) (old : BrokerState)
    (registered : find id r ≡ some old) where
  pub is_broker_cached-has :
      (c : BridgeCache)
      → Found settings r c
      → has id c.brokers ≡ true
      → is_broker_cached id c ≡ has id c.cached_brokers
  unfolding is_broker_cached is_complete contains_broker has
  is_broker_cached-has c f h = elim f.stage [
    | inr (b, _, _, _) ↦ ground (arith, b)
    | inl (b, last) ↦ elim (f.split.all id h) [
      | inl k ↦ ground (arith, b, h, k)
      | inr (inl k) ↦ absurd (ground (arith, k, ap (has id) last))
      | inr (inr k) ↦ absurd (ground (arith, k, registered))
    ]
  ]

  -- A broker that the cache is not for is not cached.
  not_cached :
      (c : BridgeCache)
      → Found settings r c
      → has id c.brokers ≡ false
      → has id c.cached_brokers ≡ false
  not_cached c f h = ground (arith, f.split.cached_in id, h)

pub uncache_topic-Holds :
    (topic : Str) (c : BridgeCache) (p : Str → Bool)
    → has topic c.topics ≡ true
    → Holds c.topics c.wildcard_count p
    → Holds
        (uncache_topic topic c).topics
        (uncache_topic topic c).wildcard_count
        (λ t. not (str_eq topic t) && p t)
unfolding uncache_topic
uncache_topic-Holds topic c p e (d, n, h) = (
  erase-Distinct topic c.topics d,
  ground (arith, n, e, wildcards_in-erase topic c.topics d e),
  λ t. has-erase t topic c.topics ∙ ap (λ b. not (str_eq topic t) && b) (h t),
)

pub uncache_topic-Kept : (topic : Str) (c : BridgeCache) → Kept c (uncache_topic topic c)
unfolding uncache_topic
uncache_topic-Kept topic c = ground arith

-- What a change of the topics of a broker leaves, and which topics it has then.
module _ (settings : Settings) (topic : Str) (old : BrokerState) where
  pub add_topic-broker : (add_topic settings topic old).1.broker ≡ old.broker
  unfolding add_topic
  add_topic-broker = elim (Bool-cases (has topic old.subscriptions)) [
    | inl e ↦ rw e refl
    | inr e ↦ rw e refl
  ]

  pub remove_topic-broker : (remove_topic settings topic old).1.broker ≡ old.broker
  unfolding remove_topic
  remove_topic-broker = elim (Bool-cases (has topic old.subscriptions)) [
    | inl e ↦ rw e refl
    | inr e ↦ rw e refl
  ]

  pub has-add_topic :
      (t : Str)
      → has t (add_topic settings topic old).1.subscriptions
        ≡ (str_eq topic t || has t old.subscriptions)
  unfolding add_topic
  has-add_topic t = elim (Bool-cases (has topic old.subscriptions)) [
    | inr e ↦ rw e (has-insert t topic old.subscriptions)
    | inl e ↦ rw e (elim (Bool-cases (str_eq topic t)) [
      | inl f ↦ rw f (ap (λ y. has y old.subscriptions) (sym (str_eq→eq topic t f)) ∙ e)
      | inr f ↦ rw f refl
    ])
  ]

  has-remove_topic :
      (t : Str)
      → has t (remove_topic settings topic old).1.subscriptions
        ≡ (not (str_eq topic t) && has t old.subscriptions)
  unfolding remove_topic
  has-remove_topic t = elim (Bool-cases (has topic old.subscriptions)) [
    | inl e ↦ rw e (has-erase t topic old.subscriptions)
    | inr e ↦ rw e (elim (Bool-cases (str_eq topic t)) [
      | inl f ↦ rw f (ap (λ y. has y old.subscriptions) (sym (str_eq→eq topic t f)) ∙ e)
      | inr f ↦ rw f refl
    ])
  ]

module _ (settings : Settings) (topic id : Str) (r : Registry) (old : BrokerState)
    (registered : find id r ≡ some old) where
  abbrev pub added : Registry
  added = assign id (add_topic settings topic old).1 r

  abbrev pub removed : Registry
  removed = assign id (remove_topic settings topic old).1 r

  -- Which of the brokers have a topic behind the addition.
  pub found_topic-added :
      (t : Str) (ids : List Str)
      → found_topic added t ids ≡ (has id ids && str_eq topic t || found_topic r t ids)
  unfolding has_topic_in_broker has_topic
  found_topic-added t ids = elim (Bool-cases (has id ids)) [
    | inr e ↦ rw e (
        found_topic-other settings r id old (add_topic settings topic old).1 registered
          (add_topic-connections settings topic old).0 (add_topic-broker settings topic old) t ids
          e)
    | inl e ↦ elim (Bool-cases (str_eq topic t)) [
      | inl f ↦
          rw (e, f)
            (found_topic-has added t id ids e (
              ground (
                arith,
                find-at settings r id old (add_topic settings topic old).1 registered
                    (add_topic-connections settings topic old).0
                    (add_topic-broker settings topic old) id (str_eq_refl id),
                has-add_topic settings topic old t,
                f,
              )))
      | inr f ↦
          rw (e, f)
            (found_topic-same settings r id old (add_topic settings topic old).1 registered
              (add_topic-connections settings topic old).0 (add_topic-broker settings topic old) t
              ids (ground (arith, has-add_topic settings topic old t, f)))
    ]
  ]

  -- And behind the removal, where another broker may have it too.
  pub found_topic-removed :
      (t : Str) (ids : List Str)
      → (has id ids && str_eq topic t) ≡ false
      → found_topic removed t ids ≡ found_topic r t ids
  found_topic-removed t ids h = elim (Bool-cases (has id ids)) [
    | inr e ↦
        found_topic-other settings r id old (remove_topic settings topic old).1 registered
          (add_topic-connections settings topic old).1 (remove_topic-broker settings topic old) t
          ids e
    | inl e ↦
        found_topic-same settings r id old (remove_topic settings topic old).1 registered
          (add_topic-connections settings topic old).1 (remove_topic-broker settings topic old) t
          ids (ground (arith, has-remove_topic settings topic old t, h, e))
  ]

  pub removed_from_broker : has_topic_in_broker removed topic id ≡ false
  unfolding has_topic_in_broker has_topic
  removed_from_broker = ground (
    arith,
    find-at settings r id old (remove_topic settings topic old).1 registered
        (add_topic-connections settings topic old).1 (remove_topic-broker settings topic old) id
        (str_eq_refl id),
    has-remove_topic settings topic old topic,
    str_eq_refl topic,
  )

  pub added_to_broker : has_topic_in_broker added topic id ≡ true
  unfolding has_topic_in_broker has_topic
  added_to_broker = ground (
    arith,
    find-at settings r id old (add_topic settings topic old).1 registered
        (add_topic-connections settings topic old).0 (add_topic-broker settings topic old) id
        (str_eq_refl id),
    has-add_topic settings topic old topic,
    str_eq_refl topic,
  )

-- ===== src/Fabric/Bridge/Build.antt =====
-- The building of a cache of topics: each step keeps it right, and after some steps it is complete.
pub mod Steps
pub mod Ends
use opendxl_broker.Prelude.{
  ℕ, zero, suc, ◌+◌, ◌≡◌, refl, sym, ap, subst, ◌∙◌, ◌⊎◌, inl, inr, Bool, true, false, Option, none,
  some, List, [], ◌∷◌, ◌||◌, ◌&&◌, not, Str, ℤ, pos, str_eq, str_eq→eq, str_eq_refl, has, insert,
  find, length, if◌then◌else◌, arith, Bool-cases, Option-cases, has-insert,
}
use opendxl_broker.Fabric.State.{Settings, BrokerState, has_topic}
use opendxl_broker.Fabric.Registry.{Registry}
use opendxl_broker.Fabric.Counted.{wildcards_in}
use opendxl_broker.Fabric.Bridge.{
  CacheState, BridgeCache, start, building, completed, bridge_cache, cache_topics, build_start,
  cache_broker, build_step, build_next, build_cache_increment, has_topic_in_broker, found_topic,
  find_brokers, is_complete, build_cache,
}
use opendxl_broker.Fabric.Bridge.Walk.{AllFound, OneDisabled, find_brokers_lem}
use opendxl_broker.Fabric.Bridge.Right.{
  Holds, TopicsRight, BrokersRight, Stage, Found, Disabled, CacheRight, Kept, Holds-same,
  found_topic-insert, cache_topics-Kept, cache_topics-Holds,
}

module _ (settings : Settings) (registry : Registry) where
  has_topic_in_broker-find :
      (id t : Str) (state : BrokerState)
      → find id registry ≡ some state
      → has_topic_in_broker registry t id ≡ has t state.subscriptions
  unfolding has_topic_in_broker has_topic
  has_topic_in_broker-find id t state e = rw (e, has_topic_in_broker) refl

  -- A cache `d` in which one broker more of `c` was gone through, so that `ids` are left.
  pub record Next (c d : BridgeCache) (ids : List Str) : Type 0 where
    pub broker_id : d.broker_id ≡ c.broker_id
    pub bridge_id : d.bridge_id ≡ c.bridge_id
    pub brokers : d.brokers ≡ c.brokers
    pub enabled : d.topic_routing_enabled ≡ c.topic_routing_enabled
    pub state : d.state ≡ c.state
    pub topics_right : TopicsRight registry d d.cached_brokers
    pub split : BrokersRight registry d.brokers d.cached_brokers ids

  left-absent :
      (c : BridgeCache) (id : Str) (ids : List Str)
      → find id registry ≡ none
      → BrokersRight registry c.brokers c.cached_brokers (id ∷ ids)
      → BrokersRight registry c.brokers c.cached_brokers ids
  unfolding has
  left-absent c id ids e s = record {
    cached_in = s.cached_in;
    left_in = λ x h. s.left_in x (ground (arith, h));
    all = λ x h. elim (s.all x h) [
      | inl k ↦ inl k
      | inr (inr k) ↦ inr (inr k)
      | inr (inl k) ↦ elim (Bool-cases (str_eq id x)) [
        | inl f ↦ inr (inr (ap (λ y. find y registry) (sym (str_eq→eq id x f)) ∙ e))
        | inr f ↦ inr (inl (ground (arith, k, f)))
      ]
    ];
  }

  left-cached :
      (brokers cached ids : List Str) (id : Str)
      → BrokersRight registry brokers cached (id ∷ ids)
      → BrokersRight registry brokers (insert id cached) ids
  unfolding has
  left-cached brokers cached ids id s = record {
    cached_in = λ x h. elim (Bool-cases (str_eq id x)) [
      | inl f ↦ s.left_in x (ground (arith, f))
      | inr f ↦ s.cached_in x (ground (arith, h, f, has-insert x id cached))
    ];
    left_in = λ x h. s.left_in x (ground (arith, h));
    all = λ x h. elim (s.all x h) [
      | inl k ↦ inl (ground (arith, k, has-insert x id cached))
      | inr (inr k) ↦ inr (inr k)
      | inr (inl k) ↦ elim (Bool-cases (str_eq id x)) [
        | inl f ↦ inl (ground (arith, f, has-insert x id cached))
        | inr f ↦ inr (inl (ground (arith, k, f)))
      ]
    ];
  }

  pub cache_broker-Next :
      (c : BridgeCache) (id : Str) (ids : List Str)
      → TopicsRight registry c c.cached_brokers
      → BrokersRight registry c.brokers c.cached_brokers (id ∷ ids)
      → Next c (cache_broker registry id c) ids
  unfolding cache_broker
  cache_broker-Next c id ids t s = elim (Option-cases (find id registry)) [
    | inl e ↦
        rw (e, cache_broker)
          (record {
            broker_id = refl;
            bridge_id = refl;
            brokers = refl;
            enabled = refl;
            state = refl;
            topics_right = t;
            split = left-absent c id ids e s;
          })
    | inr (state, e) ↦
        let d = cache_topics state.subscriptions c in
        let k = cache_topics-Kept state.subscriptions c in
        let topics =
          Holds-same d.topics d.wildcard_count
            (λ x. has x state.subscriptions || found_topic registry x c.cached_brokers)
            (λ x. found_topic registry x (insert id d.cached_brokers))
            (λ x.
              ap (λ b. b || found_topic registry x c.cached_brokers)
                (sym (has_topic_in_broker-find id x state e))
              ∙ sym (found_topic-insert registry x id c.cached_brokers)
              ∙ ap (λ y. found_topic registry x (insert id y)) (sym k.cached_brokers))
            (cache_topics-Holds state.subscriptions c (λ x. found_topic registry x c.cached_brokers)
              t) in
        rw (e, cache_broker)
          (record {
            broker_id = k.broker_id;
            bridge_id = k.bridge_id;
            brokers = k.brokers;
            enabled = k.enabled;
            state = k.state;
            topics_right = topics;
            split =
                rw (k.brokers, k.cached_brokers) (left-cached c.brokers c.cached_brokers ids id s);
          })
  ]

  -- The iterator is moved on behind the broker.
  pub build_step-Found :
      (c d : BridgeCache) (ids : List Str)
      → c.topic_routing_enabled ≡ true
      → AllFound settings registry c.broker_id c.bridge_id c.brokers
      → c.state ≡ building
      → Next c d ids
      → Found settings registry (build_step ids d)
  unfolding build_step
  build_step-Found c d [] e a b n = record {
    enabled = n.enabled ∙ e;
    brokers_right = rw (n.broker_id, n.bridge_id, n.brokers) a;
    topics_right = n.topics_right;
    split = n.split;
    stage = inl (refl, refl);
  }
  build_step-Found c d (id ∷ ids) e a b n = record {
    enabled = n.enabled ∙ e;
    brokers_right = rw (n.broker_id, n.bridge_id, n.brokers) a;
    topics_right = n.topics_right;
    split = n.split;
    stage = inr (n.state ∙ b, id, ids, refl);
  }

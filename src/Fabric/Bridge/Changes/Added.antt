-- ===== src/Fabric/Bridge/Changes/Added.antt =====
-- A topic of a broker that is added, in a cache of topics.
use opendxl_broker.Prelude.{
  ◌≡◌, refl, sym, ap, subst, ◌∙◌, inl, inr, true, false, some, ◌||◌, ◌&&◌, not, Str, str_eq,
  str_eq→eq, has, find, assign, arith, Bool-cases,
}
use opendxl_broker.Fabric.State.{Settings, BrokerState, get_connections, add_topic}
use opendxl_broker.Fabric.Registry.{Registry}
use opendxl_broker.Fabric.Changes.Routed.{add_topic-connections}
use opendxl_broker.Fabric.Bridge.{
  BridgeCache, cache_topic, contains_broker, is_broker_cached, found_topic, bridge_add_topic,
}
use opendxl_broker.Fabric.Bridge.Right.{Found, Holds-same, cache_topic-Holds, cache_topic-Kept}
use opendxl_broker.Fabric.Bridge.Same.{Found-kept}
use opendxl_broker.Fabric.Bridge.Changes.{
  Kept_self, is_broker_cached-has, add_topic-broker, added, found_topic-added, added_to_broker,
}

module _ (settings : Settings) (topic id : Str) (r : Registry) (old : BrokerState)
    (registered : find id r ≡ some old) where
  -- A cache that is left as it is, where the topics stay right.
  module _ (new : BrokerState) (connections : get_connections new ≡ get_connections old)
      (broker : new.broker ≡ old.broker) where
    pub Found-left :
        (c : BridgeCache)
        → ((t : Str)
            → found_topic (assign id new r) t c.cached_brokers ≡ found_topic r t c.cached_brokers)
        → Found settings r c
        → Found settings (assign id new r) c
    Found-left c same f =
        Found-kept settings r id old new registered connections broker c c (Kept_self c)
          (Holds-same c.topics c.wildcard_count (λ t. found_topic r t c.cached_brokers)
            (λ t. found_topic (assign id new r) t c.cached_brokers) (λ t. sym (same t))
            f.topics_right)
          f

  added_idle :
      (c : BridgeCache)
      → (contains_broker id c
          && (c.topic_routing_enabled && (is_broker_cached id c && not (has topic c.topics))))
        ≡ false
      → (bridge_add_topic (added settings topic id r old registered) id topic c).1 ≡ c
  unfolding bridge_add_topic
  added_idle c h = ground (arith, h)

  added_taken :
      (c : BridgeCache)
      → (contains_broker id c
          && (c.topic_routing_enabled && (is_broker_cached id c && not (has topic c.topics))))
        ≡ true
      → (bridge_add_topic (added settings topic id r old registered) id topic c).1
        ≡ cache_topic topic c
  unfolding bridge_add_topic
  added_taken c h = ground (arith, h, (added_to_broker settings topic id r old registered))

  -- The topics of a cache that the addition does not reach.
  added_left :
      (c : BridgeCache) (t : Str)
      → Found settings r c
      → (contains_broker id c
          && (c.topic_routing_enabled && (is_broker_cached id c && not (has topic c.topics))))
        ≡ false
      → found_topic (added settings topic id r old registered) t c.cached_brokers
        ≡ found_topic r t c.cached_brokers
  unfolding contains_broker
  added_left c t f h =
      found_topic-added settings topic id r old registered t c.cached_brokers
      ∙ elim (Bool-cases (has id c.cached_brokers && str_eq topic t)) [
        | inr e ↦ rw e refl
        | inl e ↦
            let inside = f.split.cached_in id (ground (arith, e)) in
            let here : has topic c.topics ≡ true = ground (
              arith,
              h,
              e,
              inside,
              f.enabled,
              is_broker_cached-has settings r id old registered c f inside,
            ) in
            ground (
              arith,
              e,
              sym (f.topics_right.2 t)
                  ∙ ap (λ y. has y c.topics) (sym (str_eq→eq topic t (ground (arith, e))))
                  ∙ here,
            )
      ]

  pub bridge_add_topic-Found :
      (c : BridgeCache)
      → Found settings r c
      → Found settings
          (added settings topic id r old registered)
          (bridge_add_topic (added settings topic id r old registered) id topic c).1
  unfolding contains_broker
  bridge_add_topic-Found c f =
      elim (Bool-cases (
        contains_broker id c
        && (c.topic_routing_enabled && (is_broker_cached id c && not (has topic c.topics))))) [
          | inr e ↦
              subst (Found settings (added settings topic id r old registered))
                (sym (added_idle c e))
                (Found-left (add_topic settings topic old).1
                  (add_topic-connections settings topic old).0 (add_topic-broker settings topic old)
                  c (λ t. added_left c t f e) f)
          | inl e ↦
              let d = cache_topic topic c in
              let k = cache_topic-Kept topic c in
              let cached : has id c.cached_brokers ≡ true = ground (
                arith,
                e,
                is_broker_cached-has settings r id old registered c f (ground (arith, e)),
              ) in
              subst (Found settings (added settings topic id r old registered))
                (sym (added_taken c e))
                (Found-kept settings r id old (add_topic settings topic old).1 registered
                  (add_topic-connections settings topic old).0 (add_topic-broker settings topic old)
                  c d k
                  (Holds-same d.topics d.wildcard_count
                    (λ t. str_eq topic t || found_topic r t c.cached_brokers)
                    (λ t. found_topic (added settings topic id r old registered) t d.cached_brokers)
                    (λ t. sym (
                      ap (found_topic (added settings topic id r old registered) t) k.cached_brokers
                      ∙ found_topic-added settings topic id r old registered t c.cached_brokers
                      ∙ rw cached refl))
                    (cache_topic-Holds topic c (λ t. found_topic r t c.cached_brokers)
                      f.topics_right))
                  f)
        ]

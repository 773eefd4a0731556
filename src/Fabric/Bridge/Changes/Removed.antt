-- ===== src/Fabric/Bridge/Changes/Removed.antt =====
-- A topic of a broker that is removed, in a cache of topics.
use opendxl_broker.Prelude.{
  ◌≡◌, sym, ap, subst, ◌∙◌, inl, inr, Bool, true, false, some, List, [], ◌∷◌, ◌&&◌, not, Str,
  str_eq, str_eq→eq, has, find, arith, Bool-cases,
}
use opendxl_broker.Fabric.State.{Settings, BrokerState, add_topic, remove_topic}
use opendxl_broker.Fabric.Registry.{Registry}
use opendxl_broker.Fabric.Changes.Routed.{add_topic-connections}
use opendxl_broker.Fabric.Bridge.{
  BridgeCache, bridge_cache, uncache_topic, contains_broker, is_broker_cached, has_topic_in_broker,
  found_topic, bridge_add_topic, bridge_remove_topic,
}
use opendxl_broker.Fabric.Bridge.Right.{Found, CacheRight, Holds-same}
use opendxl_broker.Fabric.Bridge.Same.{find-same, Disabled-kept, Found-kept}
use opendxl_broker.Fabric.Bridge.Changes.{
  is_broker_cached-has, uncache_topic-Holds, uncache_topic-Kept, add_topic-broker,
  remove_topic-broker, added, removed, found_topic-removed, removed_from_broker,
}
use opendxl_broker.Fabric.Bridge.Changes.Added.{Found-left, bridge_add_topic-Found}

module _ (settings : Settings) (topic id : Str) (r : Registry) (old : BrokerState)
    (registered : find id r ≡ some old) where
  -- A broker that has the topic behind the removal had it before.
  removed-back :
      (x : Str)
      → has_topic_in_broker (removed settings topic id r old registered) topic x ≡ true
      → has_topic_in_broker r topic x ≡ true
  unfolding has_topic_in_broker
  removed-back x h = elim (Bool-cases (str_eq id x)) [
    | inl e ↦ absurd (
        ground (
          arith,
          h,
          ap (has_topic_in_broker (removed settings topic id r old registered) topic)
              (str_eq→eq id x e),
          (removed_from_broker settings topic id r old registered),
        ))
    | inr e ↦ ground (
      arith,
      h,
      find-same settings r id old (remove_topic settings topic old).1 registered
          (add_topic-connections settings topic old).1 (remove_topic-broker settings topic old) x e,
    )
  ]

  found_topic-back :
      (ids : List Str)
      → found_topic (removed settings topic id r old registered) topic ids ≡ true
      → found_topic r topic ids ≡ true
  unfolding found_topic
  found_topic-back [] h = h
  found_topic-back (x ∷ ids) h =
      elim (Bool-cases (has_topic_in_broker (removed settings topic id r old registered) topic x)) [
        | inl e ↦ ground (arith, removed-back x e)
        | inr e ↦ ground (arith, h, e, found_topic-back ids)
      ]

  -- Whether the topic is taken out of the cache.
  abbrev takes_out : BridgeCache → Bool
  takes_out c =
      contains_broker id c
      && (c.topic_routing_enabled
          && (is_broker_cached id c
              && (has topic c.topics
                  && not (
                      found_topic (removed settings topic id r old registered) topic
                        c.cached_brokers))))

  removed_idle :
      (c : BridgeCache)
      → takes_out c ≡ false
      → (bridge_remove_topic (removed settings topic id r old registered) id topic c).1 ≡ c
  unfolding bridge_remove_topic
  removed_idle c h = ground (arith, h)

  removed_taken :
      (c : BridgeCache)
      → takes_out c ≡ true
      → (bridge_remove_topic (removed settings topic id r old registered) id topic c).1
        ≡ uncache_topic topic c
  unfolding bridge_remove_topic
  removed_taken c h = ground (arith, h, (removed_from_broker settings topic id r old registered))

  removed_left :
      (c : BridgeCache) (t : Str)
      → Found settings r c
      → takes_out c ≡ false
      → found_topic (removed settings topic id r old registered) t c.cached_brokers
        ≡ found_topic r t c.cached_brokers
  unfolding contains_broker
  removed_left c t f h = elim (Bool-cases (has id c.cached_brokers && str_eq topic t)) [
    | inr e ↦ found_topic-removed settings topic id r old registered t c.cached_brokers e
    | inl e ↦
        let inside = f.split.cached_in id (ground (arith, e)) in
        let same = str_eq→eq topic t (ground (arith, e)) in
        subst
          (λ y.
            found_topic (removed settings topic id r old registered) y c.cached_brokers
            ≡ found_topic r y c.cached_brokers)
          same
          (elim (Bool-cases (has topic c.topics)) [
            | inl g ↦ ground (
              arith,
              h,
              e,
              g,
              inside,
              f.enabled,
              is_broker_cached-has settings r id old registered c f inside,
              f.topics_right.2 topic,
            )
            | inr g ↦
                let none_before = sym (f.topics_right.2 topic) ∙ g in
                elim (Bool-cases (
                  found_topic (removed settings topic id r old registered) topic
                    c.cached_brokers)) [
                      | inr k ↦ k ∙ sym none_before
                      | inl k ↦
                          absurd (ground (arith, none_before, found_topic-back c.cached_brokers k))
                    ]
          ])
  ]

  pub bridge_remove_topic-Found :
      (c : BridgeCache)
      → Found settings r c
      → Found settings
          (removed settings topic id r old registered)
          (bridge_remove_topic (removed settings topic id r old registered) id topic c).1
  unfolding contains_broker
  bridge_remove_topic-Found c f = elim (Bool-cases (takes_out c)) [
    | inr e ↦
        subst (Found settings (removed settings topic id r old registered)) (sym (removed_idle c e))
          (Found-left settings topic id r old registered (remove_topic settings topic old).1
            (add_topic-connections settings topic old).1 (remove_topic-broker settings topic old) c
            (λ t. removed_left c t f e) f)
    | inl e ↦
        let d = uncache_topic topic c in
        let k = uncache_topic-Kept topic c in
        subst (Found settings (removed settings topic id r old registered))
          (sym (removed_taken c e))
          (Found-kept settings r id old (remove_topic settings topic old).1 registered
            (add_topic-connections settings topic old).1 (remove_topic-broker settings topic old) c
            d k
            (Holds-same d.topics d.wildcard_count
              (λ t. not (str_eq topic t) && found_topic r t c.cached_brokers)
              (λ t. found_topic (removed settings topic id r old registered) t d.cached_brokers)
              (λ t. elim (Bool-cases (str_eq topic t)) [
                | inr g ↦ rw g (
                    sym (
                      ap (found_topic (removed settings topic id r old registered) t)
                        k.cached_brokers
                      ∙ found_topic-removed settings topic id r old registered t c.cached_brokers
                          (ground (arith, g))))
                | inl g ↦ rw g (
                    sym (
                      ap (found_topic (removed settings topic id r old registered) t)
                        k.cached_brokers
                      ∙ ap
                          (λ y.
                            found_topic (removed settings topic id r old registered) y
                              c.cached_brokers)
                          (sym (str_eq→eq topic t g))
                      ∙ ground (arith, e)))
              ])
              (uncache_topic-Holds topic c (λ t. found_topic r t c.cached_brokers)
                (ground (arith, e)) f.topics_right))
            f)
  ]

  Fresh-left :
      (s : Registry) (c : BridgeCache)
      → c ≡ bridge_cache c.broker_id c.bridge_id
      → ((bridge_add_topic s id topic c).1 ≡ c) × ((bridge_remove_topic s id topic c).1 ≡ c)
  unfolding bridge_add_topic bridge_remove_topic contains_broker bridge_cache has
  Fresh-left s c e = ground (arith, ap (λ (x : BridgeCache). x.brokers) e)

  Disabled-left :
      (s : Registry) (c : BridgeCache)
      → c.topic_routing_enabled ≡ false
      → ((bridge_add_topic s id topic c).1 ≡ c) × ((bridge_remove_topic s id topic c).1 ≡ c)
  unfolding bridge_add_topic bridge_remove_topic
  Disabled-left s c e = ground (arith, e)

  -- A right cache of a bridge stays right when a topic is added to the state, and
  -- when one is removed from it, with the bridge told of the change.
  pub bridge_topics-CacheRight :
      (c : BridgeCache)
      → CacheRight settings r c
      → CacheRight settings
          (added settings topic id r old registered)
          (bridge_add_topic (added settings topic id r old registered) id topic c).1
        × CacheRight settings
            (removed settings topic id r old registered)
            (bridge_remove_topic (removed settings topic id r old registered) id topic c).1
  bridge_topics-CacheRight c (inl e) = (
    subst (CacheRight settings (added settings topic id r old registered))
        (sym (Fresh-left (added settings topic id r old registered) c e).0) (inl e),
    subst (CacheRight settings (removed settings topic id r old registered))
        (sym (Fresh-left (removed settings topic id r old registered) c e).1) (inl e),
  )
  bridge_topics-CacheRight c (inr (inl d)) = (
    subst (CacheRight settings (added settings topic id r old registered))
        (sym (Disabled-left (added settings topic id r old registered) c d.disabled).0)
        (inr (
          inl (
            Disabled-kept settings r id old (add_topic settings topic old).1 registered
              (add_topic-connections settings topic old).0 (add_topic-broker settings topic old) c
              d))),
    subst (CacheRight settings (removed settings topic id r old registered))
        (sym (Disabled-left (removed settings topic id r old registered) c d.disabled).1)
        (inr (
          inl (
            Disabled-kept settings r id old (remove_topic settings topic old).1 registered
              (add_topic-connections settings topic old).1 (remove_topic-broker settings topic old)
              c d))),
  )
  bridge_topics-CacheRight c (inr (inr f)) = (
    inr (inr (bridge_add_topic-Found settings topic id r old registered c f)),
    inr (inr (bridge_remove_topic-Found c f)),
  )

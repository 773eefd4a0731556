-- ===== src/Fabric/TopicCache/Stale.antt =====
-- A broker that is behind two bridges: only the first of the two caches hears of a new topic.
use opendxl_broker.Prelude.{
  ℕ, zero, suc, ◌≡◌, ◌≢◌, refl, ap, subst, ◌∙◌, inl, inr, true, false, some, List, [], ◌∷◌, ◌++◌,
  ◌||◌, not, Str, All, str_eq_refl, find, has, arith, Bool-cases,
}
use opendxl_broker.Topic.Wildcards.{pound_char}
use opendxl_broker.Topic.Covers.{prefix, coverings, NoSlash}
use opendxl_broker.Fabric.State.{Settings, BrokerState, add_topic, is_topic_routing_enabled}
use opendxl_broker.Fabric.Registry.{Registry}
use opendxl_broker.Fabric.Hierarchy.{is_subscriber_in_hierarchy}
use opendxl_broker.Fabric.Hierarchy.Search.{is_subscriber_in_hierarchy_correct}
use opendxl_broker.Fabric.Changes.Routed.{add_topic-connections}
use opendxl_broker.Fabric.Bridge.{
  BridgeCache, bridge_cache, allow_visit, contains_broker, is_complete, found_topic, cached_answer,
  build_cache, bridge_add_topic, has_one,
}
use opendxl_broker.Fabric.Bridge.Right.{Found, CacheRight}
use opendxl_broker.Fabric.Bridge.Build.Steps.{build_cache_increment-Built}
use opendxl_broker.Fabric.Bridge.Answer.{RegistryCounted, some-has_one}
use opendxl_broker.Fabric.Bridge.Answer.Topics.{in_broker, cached_answer_lem}
use opendxl_broker.Fabric.Bridge.Same.{find-at, Behind-kept}
use opendxl_broker.Fabric.Bridge.Changes.{added, add_topic-broker, has-add_topic}
use opendxl_broker.Fabric.TopicCache.{BrokerCache, first_change}

module _ (settings : Settings) (r : Registry) where
  -- What the building gives is right and complete.
  build_cache-CacheRight :
      (fuel : ℕ) (c d : BridgeCache)
      → CacheRight settings r c
      → build_cache settings r fuel c ≡ some d
      → CacheRight settings r d × (is_complete d ≡ true)
  unfolding build_cache
  build_cache-CacheRight zero c d h e = cc
  build_cache-CacheRight (suc fuel) c d h e = elim (Bool-cases (is_complete c)) [
    | inl k ↦
        let same : c ≡ d = ground (arith, e, k) in
        subst (λ (x : BridgeCache). CacheRight settings r x × (is_complete x ≡ true)) same (h, k)
    | inr k ↦
        let (c', eq, built) = build_cache_increment-Built settings r c h in
        build_cache-CacheRight fuel c' d built.2 (ground (arith, e, k, eq))
  ]

  built-Found :
      (fuel : ℕ) (broker_id bridge_id : Str) (c : BridgeCache)
      → build_cache settings r fuel (bridge_cache broker_id bridge_id) ≡ some c
      → c.topic_routing_enabled ≡ true
      → Found settings r c
  unfolding is_complete bridge_cache
  built-Found fuel broker_id bridge_id c e on =
      let (right, done) =
        build_cache-CacheRight fuel (bridge_cache broker_id bridge_id) c
          (inl (unfold bridge_cache in refl)) e in
      elim right [
        | inr (inr f) ↦ f
        | inr (inl d) ↦ absurd (ground (arith, on, d.disabled))
        | inl fresh ↦ absurd (ground (arith, done, ap is_complete fresh))
      ]

module _ (settings : Settings) (rs : List Str) (l : Str) (ns : All NoSlash rs) (n : NoSlash l)
    (h : l ≢ (pound_char ∷ [])) (id : Str) (r : Registry) (old : BrokerState)
    (registered : find id r ≡ some old) where
  -- The walk finds the broker with its new topic.
  added-hierarchy :
      (c : BridgeCache)
      → Found settings r c
      → contains_broker id c ≡ true
      → RegistryCounted (added settings (prefix rs ++ l) id r old registered)
      → is_subscriber_in_hierarchy settings c.broker_id c.bridge_id
          (prefix rs ++ l)
          (added settings (prefix rs ++ l) id r old registered)
        ≡ some true
  unfolding contains_broker allow_visit has
  added-hierarchy c f inside counted =
      let topic = prefix rs ++ l in
      let new = (add_topic settings topic old).1 in
      let s = added settings topic id r old registered in
      let conn = (add_topic-connections settings topic old).0 in
      let broker = add_topic-broker settings topic old in
      let route =
        Behind-kept settings r id old new registered conn broker c.broker_id c.bridge_id id
          ((f.brokers_right id).1 inside).0 in
      let heard_it : has topic new.subscriptions ≡ true =
        ground (arith, has-add_topic settings topic old topic, str_eq_refl topic) in
      let any : (not (is_topic_routing_enabled settings new.broker)
            || has_one (topic ∷ coverings rs) new.subscriptions)
          ≡ true =
        ground (
          arith,
          some-has_one (topic ∷ coverings rs) new.subscriptions topic
              (ground (arith, str_eq_refl topic)) heard_it,
        ) in
      let sub =
        in_broker settings rs l ns n h s counted id new
          (find-at settings r id old new registered conn broker id (str_eq_refl id)).1
        ∙ ap some any in
      let (b, eq, yes_it, no_one) =
        is_subscriber_in_hierarchy_correct settings rs l ns n h s c.broker_id c.bridge_id in
      elim (Bool-cases b) [
        | inl e ↦ eq ∙ ap some e
        | inr e ↦ absurd (ground (arith, no_one e id route, sub))
      ]

  -- For two caches of a broker that both contain a registered broker, the second one as
  -- buildCache leaves it, with the routing by topics enabled behind its bridge and with neither a
  -- topic whose levels are without slashes and whose last level is not `#` alone nor a wildcard
  -- that covers it, and a registry behind the addition of the topic to the registered broker in
  -- which all topics are counted as they are: addTopic of BrokerTopicCache leaves the second
  -- cache as it is, which answers no for the topic, while the walk down the fabric behind its
  -- bridge answers yes.
  pub first_change_stale :
      (fuel : ℕ) (broker_id bridge_id key key' : Str) (c c' : BridgeCache) (caches : BrokerCache)
      → contains_broker id c ≡ true
      → build_cache settings r fuel (bridge_cache broker_id bridge_id) ≡ some c'
      → c'.topic_routing_enabled ≡ true
      → contains_broker id c' ≡ true
      → has_one ((prefix rs ++ l) ∷ coverings rs) c'.topics ≡ false
      → RegistryCounted (added settings (prefix rs ++ l) id r old registered)
      → let s = added settings (prefix rs ++ l) id r old registered in
        let add = bridge_add_topic s id (prefix rs ++ l) in
        (first_change add ((key, c) ∷ (key', c') ∷ caches) ≡ (key, (add c).1) ∷ (key', c') ∷ caches)
        × (cached_answer (prefix rs ++ l) c' ≡ some false)
        × (is_subscriber_in_hierarchy settings c'.broker_id c'.bridge_id (prefix rs ++ l) s
            ≡ some true)
  unfolding first_change bridge_add_topic
  first_change_stale fuel broker_id bridge_id key key' c c' caches inside e on inside' unheard
        counted =
      let f = built-Found settings r fuel broker_id bridge_id c' e on in
      (
        rw inside refl,
        cached_answer_lem settings rs l ns n h c' (λ t. found_topic r t c'.cached_brokers)
              f.topics_right
            ∙ ap some (ground (arith, on, unheard)),
        added-hierarchy c' f inside' counted,
      )

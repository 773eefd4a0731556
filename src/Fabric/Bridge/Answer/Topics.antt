-- ===== src/Fabric/Bridge/Answer/Topics.antt =====
-- What a complete cache answers, and the brokers behind it.
use opendxl_broker.Prelude.{
  ◌≡◌, ◌≢◌, refl, sym, ap, ◌∙◌, inl, inr, Bool, true, false, some, List, [], ◌∷◌, ◌++◌, ◌||◌, not,
  Str, All, pos, ltb_ℤ, has, find, arith, Bool-cases, Option-cases,
}
use opendxl_broker.Topic.Wildcards.{pound_char}
use opendxl_broker.Topic.Covers.{prefix, coverings, NoSlash}
use opendxl_broker.Topic.Covers.Loop.{wildcards-prefix}
use opendxl_broker.Fabric.State.{Settings, BrokerState, has_topic, is_topic_routing_enabled}
use opendxl_broker.Fabric.Registry.{Registry, is_subscriber_in_broker}
use opendxl_broker.Fabric.Subscriber.{is_subscriber-coverings}
use opendxl_broker.Fabric.Bridge.{
  BridgeCache, find_visit, has_topic_in_broker, has_one, cached_answer,
}
use opendxl_broker.Fabric.Bridge.Walk.{Behind}
use opendxl_broker.Fabric.Bridge.Right.{Holds, Found, found_topic-has}
use opendxl_broker.Fabric.Bridge.Answer.{
  RegistryCounted, find-RegistryCounted, has_one_of-has_one, has_one-some, some-has_one,
  found_topic-some, has_topic_in_broker-some, has_one-none,
}

module _ (settings : Settings) (rs : List Str) (l : Str) (ns : All NoSlash rs) (n : NoSlash l)
    (h : l ≢ (pound_char ∷ [])) where
  -- The topic, and what covers it.
  abbrev pub heard : List Str
  heard = (prefix rs ++ l) ∷ coverings rs

  pub cached_answer_lem :
      (c : BridgeCache) (p : Str → Bool)
      → Holds c.topics c.wildcard_count p
      → cached_answer (prefix rs ++ l) c
        ≡ some (not c.topic_routing_enabled || has_one heard c.topics)
  unfolding cached_answer has_one
  cached_answer_lem c p (d, e, _) = elim (Bool-cases (not c.topic_routing_enabled)) [
    | inl f ↦ rw f refl
    | inr f ↦ elim (Bool-cases (has (prefix rs ++ l) c.topics)) [
      | inl g ↦ rw (f, g) refl
      | inr g ↦ elim (Bool-cases (ltb_ℤ (pos 0) c.wildcard_count)) [
        | inl k ↦ rw (f, g, k, wildcards-prefix rs l ns n h) refl
        | inr k ↦ rw (f, g, k, has_one-none rs c.topics (ground (arith, e, k))) refl
      ]
    ]
  ]

  module _ (registry : Registry) (counted : RegistryCounted registry) where
    -- Whether a registered broker has a subscriber.
    pub in_broker :
        (id : Str) (state : BrokerState)
        → find id registry ≡ some state
        → is_subscriber_in_broker settings id (prefix rs ++ l) registry
          ≡ some (
              not (is_topic_routing_enabled settings state.broker)
              || has_one heard state.subscriptions)
    unfolding is_subscriber_in_broker
    in_broker id state e =
        let (c, small) = find-RegistryCounted id state registry counted e in
        rw (e, is_subscriber_in_broker)
          (is_subscriber-coverings settings state rs l c small ns n h
            ∙ ap (λ b. some (not (is_topic_routing_enabled settings state.broker) || b))
                (has_one_of-has_one heard state))

    -- A topic of the cache is one of a broker on a route, which has a subscriber then.
    pub heard-Behind :
        (c : BridgeCache)
        → Found settings registry c
        → has_one heard c.topics ≡ true
        → (id : Str) × Behind registry c.broker_id c.bridge_id id
          × (is_subscriber_in_broker settings id (prefix rs ++ l) registry ≡ some true)
    heard-Behind c r e =
        let (t, w, held) = has_one-some heard c.topics e in
        let (id, cached, has_it) =
          found_topic-some registry t c.cached_brokers (sym (r.topics_right.2 t) ∙ held) in
        let (state, f, sub) = has_topic_in_broker-some registry t id has_it in
        (
          id,
          ((r.brokers_right id).1 (r.split.cached_in id cached)).0,
          in_broker id state f
              ∙ ap some (ground (arith, some-has_one heard state.subscriptions t w sub)),
        )

    in_broker-topics :
        (id : Str) (state : BrokerState)
        → find id registry ≡ some state
        → find_visit settings registry id ≡ some false
        → is_subscriber_in_broker settings id (prefix rs ++ l) registry ≡ some true
        → has_one heard state.subscriptions ≡ true
    unfolding find_visit
    in_broker-topics id state e f g = ground (arith, e, f, g, in_broker id state e)

    -- And a broker on a route with a subscriber has a topic that is in the cache.
    pub Behind-heard :
        (c : BridgeCache) (id : Str)
        → Found settings registry c
        → c.brokers_iter ≡ []
        → Behind registry c.broker_id c.bridge_id id
        → is_subscriber_in_broker settings id (prefix rs ++ l) registry ≡ some true
        → has_one heard c.topics ≡ true
    unfolding has_topic_in_broker has_topic is_subscriber_in_broker has
    Behind-heard c id r last route sub = elim (Option-cases (find id registry)) [
      | inl e ↦ absurd (ground (arith, e, sub))
      | inr (state, e) ↦
          let inside = (r.brokers_right id).0 route in
          let visit = ((r.brokers_right id).1 inside).1 in
          let (t, w, held) =
            has_one-some heard state.subscriptions (in_broker-topics id state e visit sub) in
          elim (r.split.all id inside) [
            | inr (inr k) ↦ absurd (ground (arith, k, e))
            | inr (inl k) ↦ absurd (ground (arith, k, ap (has id) last))
            | inl k ↦ some-has_one heard c.topics t w (
                r.topics_right.2 t
                ∙ found_topic-has registry t id c.cached_brokers k
                    (rw (e, has_topic_in_broker) held))
          ]
    ]

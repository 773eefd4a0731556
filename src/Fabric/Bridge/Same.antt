-- ===== src/Fabric/Bridge/Same.antt =====
-- A cache of topics behind a change of the topics of one broker.
use opendxl_broker.Prelude.{
  ◌≡◌, refl, sym, ap, ◌∙◌, inl, inr, true, false, some, List, [], ◌∷◌, Str, str_eq, str_eq→eq,
  str_eq_sym, has, find, assign, find-assign, arith, Bool-cases,
}
use opendxl_broker.Fabric.State.{
  Settings, BrokerState, has_topic, get_connections, is_topic_routing_enabled,
}
use opendxl_broker.Fabric.Registry.{Registry}
use opendxl_broker.Fabric.Hierarchy.Route.{Route}
use opendxl_broker.Fabric.Changes.Routed.{connections_of-assign}
use opendxl_broker.Fabric.Bridge.{
  BridgeCache, allow_visit, find_visit, has_topic_in_broker, found_topic,
}
use opendxl_broker.Fabric.Bridge.Walk.{AllFound}
use opendxl_broker.Fabric.Bridge.Right.{TopicsRight, BrokersRight, Found, Disabled, Kept}

-- The state of a registered broker is put back with the same connections and properties.
module _ (settings : Settings) (r : Registry) (id : Str) (old new : BrokerState)
    (registered : find id r ≡ some old) (connections : get_connections new ≡ get_connections old)
    (broker : new.broker ≡ old.broker) where
  pub find-same : (x : Str) → str_eq id x ≡ false → find x (assign id new r) ≡ find x r
  find-same x e = find-assign id x new r ∙ rw e refl

  pub find-at :
      (x : Str) → str_eq id x ≡ true → (find x r ≡ some old) × (find x (assign id new r) ≡ some new)
  find-at x e =
      (ap (λ y. find y r) (sym (str_eq→eq id x e)) ∙ registered, find-assign id x new r ∙ rw e refl)

  pub Behind-kept :
      (b x y : Str) → Route r (allow_visit b) x y → Route (assign id new r) (allow_visit b) x y
  Behind-kept b x y (Route.stay a al) = Route.stay a al
  Behind-kept b x y (Route.go_on a c y' al e route) =
      Route.go_on a c y al
        (ap (has c) (sym (connections_of-assign id old new r registered connections a)) ∙ e)
        (Behind-kept b c y route)

  Behind-back :
      (b x y : Str) → Route (assign id new r) (allow_visit b) x y → Route r (allow_visit b) x y
  Behind-back b x y (Route.stay a al) = Route.stay a al
  Behind-back b x y (Route.go_on a c y' al e route) =
      Route.go_on a c y al
        (ap (has c) (connections_of-assign id old new r registered connections a) ∙ e)
        (Behind-back b c y route)

  find_visit-same : (x : Str) → find_visit settings (assign id new r) x ≡ find_visit settings r x
  unfolding find_visit
  find_visit-same x = elim (Bool-cases (str_eq id x)) [
    | inl e ↦ ground (arith, find-at x e, ap (is_topic_routing_enabled settings) broker)
    | inr e ↦ ground (arith, find-same x e)
  ]

  AllFound-kept :
      (b g : Str) (ids : List Str)
      → AllFound settings r b g ids
      → AllFound settings (assign id new r) b g ids
  AllFound-kept b g ids a x = (
    λ route. (a x).0 (Behind-back b g x route),
    λ h. (Behind-kept b g x ((a x).1 h).0, find_visit-same x ∙ ((a x).1 h).1),
  )

  pub Disabled-kept :
      (c : BridgeCache) → Disabled settings r c → Disabled settings (assign id new r) c
  Disabled-kept c d = record {
    disabled = d.disabled;
    complete = d.complete;
    one = (
      d.one.0,
      Behind-kept c.broker_id c.bridge_id d.one.0 d.one.1,
      find_visit-same d.one.0 ∙ d.one.2,
    );
  }

  BrokersRight-kept :
      (b c l : List Str) → BrokersRight r b c l → BrokersRight (assign id new r) b c l
  BrokersRight-kept b c l s = record {
    cached_in = s.cached_in;
    left_in = s.left_in;
    all = λ x h. elim (s.all x h) [
      | inl k ↦ inl k
      | inr (inl k) ↦ inr (inl k)
      | inr (inr k) ↦ elim (Bool-cases (str_eq id x)) [
        | inl e ↦ absurd (ground (arith, find-at x e, k))
        | inr e ↦ inr (inr (find-same x e ∙ k))
      ]
    ];
  }

  -- A cache with other topics that are right for the registry.
  pub Found-kept :
      (c d : BridgeCache)
      → Kept c d
      → TopicsRight (assign id new r) d d.cached_brokers
      → Found settings r c
      → Found settings (assign id new r) d
  Found-kept c d k t f = record {
    enabled = k.enabled ∙ f.enabled;
    brokers_right =
        rw (k.broker_id, k.bridge_id, k.brokers)
          (AllFound-kept c.broker_id c.bridge_id c.brokers f.brokers_right);
    topics_right = t;
    split =
        rw (k.brokers, k.cached_brokers, k.brokers_iter)
          (BrokersRight-kept c.brokers c.cached_brokers c.brokers_iter f.split);
    stage = rw (k.state, k.brokers_iter) f.stage;
  }

  -- A topic that another broker has, or the broker has as before.
  has_topic_in_broker-same :
      (t x : Str)
      → (str_eq id x ≡ true → has t new.subscriptions ≡ has t old.subscriptions)
      → has_topic_in_broker (assign id new r) t x ≡ has_topic_in_broker r t x
  unfolding has_topic_in_broker has_topic
  has_topic_in_broker-same t x h = elim (Bool-cases (str_eq id x)) [
    | inl e ↦ ground (arith, find-at x e, h e)
    | inr e ↦ ground (arith, find-same x e)
  ]

  pub found_topic-other :
      (t : Str) (ids : List Str)
      → has id ids ≡ false
      → found_topic (assign id new r) t ids ≡ found_topic r t ids
  unfolding found_topic has
  found_topic-other t [] h = refl
  found_topic-other t (x ∷ ids) h =
      let other : str_eq id x ≡ false = str_eq_sym id x ∙ ground (arith, h) in
      ground (
        arith,
        has_topic_in_broker-same t x (λ e. absurd (ground (arith, e, other))),
        found_topic-other t ids (ground (arith, h)),
      )

  pub found_topic-same :
      (t : Str) (ids : List Str)
      → has t new.subscriptions ≡ has t old.subscriptions
      → found_topic (assign id new r) t ids ≡ found_topic r t ids
  unfolding found_topic
  found_topic-same t [] h = refl
  found_topic-same t (x ∷ ids) h =
      ground (arith, has_topic_in_broker-same t x (λ _. h), found_topic-same t ids h)

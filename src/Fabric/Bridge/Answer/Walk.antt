-- ===== src/Fabric/Bridge/Answer/Walk.antt =====
-- What the cache of a bridge answers, against the walk down the fabric.
use opendxl_broker.Prelude.{
  ◌≡◌, ◌≢◌, refl, sym, ap, ◌∙◌, ◌⊎◌, inl, inr, Bool, true, Option, none, some, List, [], ◌∷◌, ◌++◌,
  ◌||◌, not, Str, All, find, arith, Bool-cases, Option-cases,
}
use opendxl_broker.Topic.Wildcards.{pound_char}
use opendxl_broker.Topic.Covers.{prefix, NoSlash}
use opendxl_broker.Fabric.State.{Settings}
use opendxl_broker.Fabric.Registry.{Registry, is_subscriber_in_broker}
use opendxl_broker.Fabric.Hierarchy.{is_subscriber_in_hierarchy}
use opendxl_broker.Fabric.Hierarchy.Search.{is_subscriber_in_hierarchy_correct}
use opendxl_broker.Fabric.Bridge.{
  BridgeCache, allow_visit, find_visit, found_topic, has_one, cached_answer, is_complete,
  bridge_is_subscriber, build_cache_increment, bridge_cache,
}
use opendxl_broker.Fabric.Bridge.Right.{Found, Disabled, CacheRight}
use opendxl_broker.Fabric.Bridge.Build.Steps.{Built, build_cache_increment-Built}
use opendxl_broker.Fabric.Bridge.Answer.{RegistryCounted}
use opendxl_broker.Fabric.Bridge.Answer.Topics.{
  heard, cached_answer_lem, in_broker, heard-Behind, Behind-heard,
}

module _ (settings : Settings) (rs : List Str) (l : Str) (ns : All NoSlash rs) (n : NoSlash l)
    (h : l ≢ (pound_char ∷ [])) where
  module _ (registry : Registry) (counted : RegistryCounted registry) where
    is_complete-stage :
        (c : BridgeCache) → Found settings registry c → is_complete c ≡ true → c.brokers_iter ≡ []
    unfolding is_complete
    is_complete-stage c r e = elim r.stage [
      | inl (b, k) ↦ k
      | inr (b, _, _, _) ↦ absurd (ground (arith, b, e))
    ]

    disabled_in_broker :
        (id : Str)
        → find_visit settings registry id ≡ some true
        → is_subscriber_in_broker settings id (prefix rs ++ l) registry ≡ some true
    unfolding find_visit
    disabled_in_broker id e = elim (Option-cases (find id registry)) [
      | inl f ↦ absurd (ground (arith, e, f))
      | inr (state, f) ↦
          ground (arith, e, f, in_broker settings rs l ns n h registry counted id state f)
    ]

    -- The answer of a complete cache is that of the walk down the fabric.
    cached_answer-hierarchy :
        (c : BridgeCache)
        → Disabled settings registry c ⊎ Found settings registry c
        → is_complete c ≡ true
        → (a : Bool) × (cached_answer (prefix rs ++ l) c ≡ some a)
          × (is_subscriber_in_hierarchy settings c.broker_id c.bridge_id (prefix rs ++ l) registry
              ≡ some a)
    unfolding cached_answer allow_visit
    cached_answer-hierarchy c (inl r) done =
        let (b, eq, yes_it, no_one) =
          is_subscriber_in_hierarchy_correct settings rs l ns n h registry c.broker_id
            c.bridge_id in
        let (id, route, visit) = r.one in
        (
          true,
          rw r.disabled refl,
          elim (Bool-cases b) [
            | inl e ↦ eq ∙ ap some e
            | inr e ↦ absurd (ground (arith, no_one e id route, disabled_in_broker id visit))
          ],
        )
    cached_answer-hierarchy c (inr r) done =
        let (b, eq, yes_it, no_one) =
          is_subscriber_in_hierarchy_correct settings rs l ns n h registry c.broker_id
            c.bridge_id in
        let last = is_complete-stage c r done in
        (
          has_one (heard settings rs l ns n h) c.topics,
          cached_answer_lem settings rs l ns n h c (λ t. found_topic registry t c.cached_brokers)
                r.topics_right
              ∙ ap (λ b. some (not b || has_one (heard settings rs l ns n h) c.topics)) r.enabled,
          elim (Bool-cases b) [
            | inl e ↦
                let (id, route, sub) = yes_it e in
                eq
                ∙ ap some (
                    e
                    ∙ sym
                        (Behind-heard settings rs l ns n h registry counted c id r last route sub))
            | inr e ↦ elim (Bool-cases (has_one (heard settings rs l ns n h) c.topics)) [
              | inr f ↦ eq ∙ ap some (e ∙ sym f)
              | inl f ↦
                  let (id, route, sub) = heard-Behind settings rs l ns n h registry counted c r f in
                  absurd (ground (arith, no_one e id route, sub))
            ]
          ],
        )

    -- What an answer of the cache says.
    abbrev pub Agrees : BridgeCache → Option Bool → Type 0
    Agrees c none = Unit {0}
    Agrees c (some a) =
        is_subscriber_in_hierarchy settings c.broker_id c.bridge_id (prefix rs ++ l) registry
        ≡ some a

    of_complete :
        (c d : BridgeCache)
        → build_cache_increment settings registry c ≡ some d
        → Built settings registry c d
        → Disabled settings registry d ⊎ Found settings registry d
        → is_complete d ≡ true
        → (a : Bool) × (bridge_is_subscriber settings registry (prefix rs ++ l) c
            ≡ some (d, some a))
          × Agrees c (some a)
    unfolding bridge_is_subscriber
    of_complete c d e built r done =
        let (a, ans, walk) = cached_answer-hierarchy d r done in
        (
          a,
          rw (e, bridge_is_subscriber)
              (rw (done, bridge_is_subscriber) (rw (ans, bridge_is_subscriber) refl)),
          rw (← built.0, ← built.1) walk,
        )

    -- From a right cache a bridge answers on a topic, with the cache that a step of its
    -- building leaves, and an answer, if it gives one, agrees with the walk without it.
    pub bridge_is_subscriber-hierarchy :
        (c : BridgeCache)
        → CacheRight settings registry c
        → (d : BridgeCache) × (o : Option Bool) × (bridge_is_subscriber settings registry
              (prefix rs ++ l)
              c
            ≡ some (d, o))
          × Built settings registry c d
          × Agrees c o
    unfolding bridge_is_subscriber is_complete bridge_cache
    bridge_is_subscriber-hierarchy c right =
        let (d, e, built) = build_cache_increment-Built settings registry c right in
        elim (Bool-cases (is_complete d)) [
          | inr f ↦
              (d, none, rw (e, bridge_is_subscriber) (rw (f, bridge_is_subscriber) refl), built, tt)
          | inl f ↦ elim built.2 [
            | inl fresh ↦ absurd (ground (arith, sym f ∙ ap is_complete fresh))
            | inr r ↦
                let (a, eq, agrees) = of_complete c d e built r f in (d, some a, eq, built, agrees)
          ]
        ]

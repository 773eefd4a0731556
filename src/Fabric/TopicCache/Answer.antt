-- ===== src/Fabric/TopicCache/Answer.antt =====
-- The answers of the registry with the cache of topics, against the walk down the fabric.
use opendxl_broker.Prelude.{
  ℕ, ◌≡◌, ◌≢◌, refl, sym, subst, ◌∙◌, inl, inr, Bool, true, Option, none, some, List, [], ◌∷◌, ◌++◌,
  Str, All, str_eq, str_eq→eq, find, assign, arith, Bool-cases, Option-cases,
}
use opendxl_broker.Topic.Wildcards.{pound_char}
use opendxl_broker.Topic.Covers.{prefix, NoSlash}
use opendxl_broker.Fabric.State.{Settings}
use opendxl_broker.Fabric.Registry.{Registry}
use opendxl_broker.Fabric.Hierarchy.{is_subscriber_in_hierarchy}
use opendxl_broker.Fabric.Hierarchy.Search.{is_subscriber_in_hierarchy_correct}
use opendxl_broker.Fabric.Bridge.{BridgeCache, bridge_cache}
use opendxl_broker.Fabric.Bridge.Right.{CacheRight}
use opendxl_broker.Fabric.Bridge.Answer.{RegistryCounted}
use opendxl_broker.Fabric.Bridge.Answer.Walk.{Agrees, bridge_is_subscriber-hierarchy}
use opendxl_broker.Fabric.TopicCache.{
  BrokerCache, CacheSettings, TopicCacheService, check_enabled, get_bridge_cache, get_broker_cache,
  service_is_subscriber, is_subscriber_cached,
}
use opendxl_broker.Fabric.TopicCache.Enabled.{
  BrokerRight, AllRight, ServiceRight, check_enabled-ServiceRight,
}

-- Of a map whose entries pass a test that names the key.
module _ {A : Type 0} (P : Str → A → Type 0) where
  All-find :
      (k : Str) (v : A) (m : List (Str × A)) → All (λ e. P e.0 e.1) m → find k m ≡ some v → P k v
  unfolding find
  All-find k v [] h e = cc
  All-find k v ((l, w) ∷ m) h e = elim (Bool-cases (str_eq l k)) [
    | inl f ↦
        let same : w ≡ v = ground (arith, e, f) in
        subst (λ x. P k x) same (subst (λ x. P x w) (str_eq→eq l k f) h.0)
    | inr f ↦ All-find k v m h.1 (ground (arith, e, f))
  ]

  All-assign :
      (k : Str) (v : A) (m : List (Str × A))
      → All (λ e. P e.0 e.1) m
      → P k v
      → All (λ e. P e.0 e.1) (assign k v m)
  unfolding assign
  All-assign k v [] h p = (p, tt)
  All-assign k v ((l, w) ∷ m) h p = elim (Bool-cases (str_eq l k)) [
    | inl f ↦ rw f (subst (λ x. P x v) (sym (str_eq→eq l k f)) p, h.1)
    | inr f ↦ rw f (h.0, All-assign k v m h.1 p)
  ]

module _ (settings : Settings) (registry : Registry) where
  abbrev Named : Str → Str → BridgeCache → Type 0
  Named id bridge cache =
      (cache.broker_id ≡ id) × (cache.bridge_id ≡ bridge) × CacheRight settings registry cache

  get_broker_cache-BrokerRight :
      (id : Str) (all : List (Str × BrokerCache)) (caches : BrokerCache)
      → AllRight settings registry all
      → get_broker_cache registry id all ≡ some caches
      → BrokerRight settings registry id caches
  unfolding get_broker_cache
  get_broker_cache-BrokerRight id all caches h e = elim (Option-cases (find id all)) [
    | inr (found, f) ↦
        let same : found ≡ caches = ground (arith, e, f) in
        subst (BrokerRight settings registry id) same
          (All-find (BrokerRight settings registry) id found all h f)
    | inl f ↦
        let same : [] ≡ caches = ground (arith, e, f) in
        subst (BrokerRight settings registry id) same tt
  ]

  get_bridge_cache-Named :
      (id bridge : Str) (caches : BrokerCache) (cache : BridgeCache)
      → BrokerRight settings registry id caches
      → get_bridge_cache registry id bridge caches ≡ some cache
      → Named id bridge cache
  unfolding get_bridge_cache bridge_cache
  get_bridge_cache-Named id bridge caches cache h e = elim (Option-cases (find bridge caches)) [
    | inr (found, f) ↦
        let same : found ≡ cache = ground (arith, e, f) in
        subst (Named id bridge) same (All-find (λ b c. Named id b c) bridge found caches h f)
    | inl f ↦
        let same : bridge_cache id bridge ≡ cache = ground (arith, e, f) in
        subst (Named id bridge) same (unfold bridge_cache in (refl, refl, inl refl))
  ]

module _ (settings : Settings) (cache_settings : CacheSettings) (now : ℕ) (rs : List Str) (l : Str)
    (ns : All NoSlash rs) (n : NoSlash l) (h : l ≢ (pound_char ∷ [])) (registry : Registry)
    (counted : RegistryCounted registry) where
  -- The answer of the cache, if there is one, is that of the walk.
  abbrev Says : Str → Str → Option Bool → Type 0
  Says id bridge none = Unit {0}
  Says id bridge (some a) =
      is_subscriber_in_hierarchy settings id bridge (prefix rs ++ l) registry ≡ some a

  abbrev Served : Str → Str → TopicCacheService → Type 0
  Served id bridge service =
      (s : TopicCacheService) × (o : Option Bool) × (service_is_subscriber settings cache_settings
          now registry id bridge (prefix rs ++ l) service
        ≡ some (s, o))
      × ServiceRight settings registry s
      × Says id bridge o

  Says-of_cache :
      (id bridge : Str) (c : BridgeCache) (o : Option Bool)
      → c.broker_id ≡ id
      → c.bridge_id ≡ bridge
      → Agrees settings rs l ns n h registry counted c o
      → Says id bridge o
  Says-of_cache id bridge c none e f a = tt
  Says-of_cache id bridge c (some b) e f a = rw (← e, ← f) a

  -- With the cache enabled and the caches of the broker at hand.
  of_caches :
      (id bridge : Str) (service : TopicCacheService) (caches : BrokerCache)
      → let res = check_enabled cache_settings now service in
        res.0 ≡ true
        → AllRight settings registry res.1.broker_cache_by_id
        → get_broker_cache registry id res.1.broker_cache_by_id ≡ some caches
        → Served id bridge service
  unfolding service_is_subscriber
  of_caches id bridge service caches on all e =
      let right =
        get_broker_cache-BrokerRight settings registry id
          (check_enabled cache_settings now service).1.broker_cache_by_id caches all e in
      let stored = λ (caches' : BrokerCache) (r : BrokerRight settings registry id caches').
        All-assign (BrokerRight settings registry) id caches'
          (check_enabled cache_settings now service).1.broker_cache_by_id all r in
      elim (Option-cases (get_bridge_cache registry id bridge caches)) [
        | inl f ↦ (
          record (check_enabled cache_settings now service).1 {
            broker_cache_by_id =
                assign id caches (check_enabled cache_settings now service).1.broker_cache_by_id;
          },
          none,
          rw (on, e, f) refl,
          (λ _. stored caches right),
          tt,
        )
        | inr (cache, f) ↦
            let named = get_bridge_cache-Named settings registry id bridge caches cache right f in
            let (d, o, eq, built, agrees) =
              bridge_is_subscriber-hierarchy settings rs l ns n h registry counted cache named.2 in
            let caches' = assign bridge d caches in
            (
              record (check_enabled cache_settings now service).1 {
                broker_cache_by_id =
                    assign id caches'
                      (check_enabled cache_settings now service).1.broker_cache_by_id;
              },
              o,
              rw (on, e, f, eq) refl,
              (λ _. stored caches' (
                  All-assign (λ b c. Named settings registry id b c) bridge d caches right
                    (built.0 ∙ named.0, built.1 ∙ named.1, built.2))),
              Says-of_cache id bridge cache o named.0 named.1 agrees,
            )
      ]

  service_is_subscriber-Served :
      (id bridge : Str) (service : TopicCacheService)
      → ServiceRight settings registry service
      → Served id bridge service
  unfolding service_is_subscriber
  service_is_subscriber-Served id bridge service right =
      let (all, was) =
        check_enabled-ServiceRight settings registry cache_settings now service right in
      elim (Bool-cases (check_enabled cache_settings now service).0) [
        | inr off ↦ (
          (check_enabled cache_settings now service).1,
          none,
          rw off refl,
          (λ k. absurd (ground (arith, k, was, off))),
          tt,
        )
        | inl on ↦
            elim (Option-cases (
              get_broker_cache registry id
                (check_enabled cache_settings now service).1.broker_cache_by_id)) [
                  | inl e ↦ (
                    (check_enabled cache_settings now service).1,
                    none,
                    rw (on, e) refl,
                    (λ _. all on),
                    tt,
                  )
                  | inr (caches, e) ↦ of_caches id bridge service caches on (all on) e
                ]
      ]

  -- A cache for a bridge is right for a registry if it is not begun; or it is complete, and
  -- behind its bridge is a broker with the routing by topics disabled; or it has just the brokers
  -- behind its bridge, none of which has it disabled, the topics of those that it has gone
  -- through without doubles, and the count of their wildcards. For a registry in which every
  -- broker has fewer than 2^32 topics, its topics and its pending topics without doubles and each
  -- with the count of their wildcards modulo 2^32, a topic whose levels are without slashes and
  -- whose last level is not `#` alone, and a service that, if it was enabled, has only right
  -- caches: isSubscriberInHierarchy with the cache of topics returns, at any time and with any
  -- settings of the cache, the answer of the walk down the fabric alone, and leaves such a
  -- service.
  pub is_subscriber_cached-hierarchy :
      (id bridge : Str) (service : TopicCacheService)
      → ServiceRight settings registry service
      → (s : TopicCacheService) × (a : Bool) × (is_subscriber_cached settings cache_settings now
            registry id bridge
            (prefix rs ++ l)
            service
          ≡ some (s, a))
        × ServiceRight settings registry s
        × (is_subscriber_in_hierarchy settings id bridge (prefix rs ++ l) registry ≡ some a)
  unfolding is_subscriber_cached
  is_subscriber_cached-hierarchy id bridge service right =
      answered (service_is_subscriber-Served id bridge service right)
    where
      answered :
          Served id bridge service
          → (s : TopicCacheService) × (a : Bool) × (is_subscriber_cached settings cache_settings now
                registry id bridge
                (prefix rs ++ l)
                service
              ≡ some (s, a))
            × ServiceRight settings registry s
            × (is_subscriber_in_hierarchy settings id bridge (prefix rs ++ l) registry ≡ some a)
      answered (s, some a, eq, r, says) = (s, a, rw (eq, is_subscriber_cached) refl, r, says)
      answered (s, none, eq, r, says) =
          let (b, walk, _, _) =
            is_subscriber_in_hierarchy_correct settings rs l ns n h registry id bridge in
          (s, b, rw (eq, walk, is_subscriber_cached) refl, r, walk)

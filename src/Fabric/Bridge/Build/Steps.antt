-- ===== src/Fabric/Bridge/Build/Steps.antt =====
-- The steps of the building of a cache of topics keep it right.
use opendxl_broker.Prelude.{
  ◌≡◌, refl, sym, subst, ◌∙◌, ◌⊎◌, inl, inr, Bool, true, false, some, List, [], ◌∷◌, Str, has,
  arith,
}
use opendxl_broker.Fabric.State.{Settings}
use opendxl_broker.Fabric.Registry.{Registry}
use opendxl_broker.Fabric.Counted.{wildcards_in}
use opendxl_broker.Fabric.Bridge.{
  BridgeCache, building, completed, bridge_cache, build_start, cache_broker, build_step, build_next,
  build_cache_increment, found_topic, find_brokers,
}
use opendxl_broker.Fabric.Bridge.Walk.{AllFound, OneDisabled, find_brokers_lem}
use opendxl_broker.Fabric.Bridge.Right.{BrokersRight, Found, Disabled, CacheRight}
use opendxl_broker.Fabric.Bridge.Build.{cache_broker-Next, build_step-Found}

module _ (settings : Settings) (registry : Registry) where
  -- The names of the broker and of the bridge stay, and the cache is right.
  abbrev pub Built : BridgeCache → BridgeCache → Type 0
  Built c d =
      (d.broker_id ≡ c.broker_id) × (d.bridge_id ≡ c.bridge_id) × CacheRight settings registry d

  build_step_lem :
      (ids : List Str) (d : BridgeCache)
      → ((build_step ids d).broker_id ≡ d.broker_id)
        × ((build_step ids d).bridge_id ≡ d.bridge_id)
        × ((build_step ids d).brokers_iter ≡ ids)
  unfolding build_step
  build_step_lem [] d = (refl, refl, refl)
  build_step_lem (id ∷ ids) d = (refl, refl, refl)

  pub build_next-Built :
      (c : BridgeCache) (id : Str) (ids : List Str)
      → Found settings registry c
      → c.state ≡ building
      → c.brokers_iter ≡ id ∷ ids
      → let d = build_step ids (cache_broker registry id c) in
        Built c d × Found settings registry d × (d.brokers_iter ≡ ids)
  build_next-Built c id ids f b e =
      let n =
        cache_broker-Next settings registry c id ids f.topics_right
          (subst (BrokersRight registry c.brokers c.cached_brokers) e f.split) in
      let d = cache_broker registry id c in
      let found = build_step-Found settings registry c d ids f.enabled f.brokers_right b n in
      let step = build_step_lem ids d in
      ((step.0 ∙ n.broker_id, step.1 ∙ n.bridge_id, inr (inr found)), found, step.2)

  -- The first step of a cache.
  pub build_start-Built :
      (broker_id bridge_id : Str)
      → let c = bridge_cache broker_id bridge_id in
        (d : BridgeCache) × (build_start settings registry c ≡ some d)
        × Built c d
        × (Disabled settings registry d ⊎ Found settings registry d)
  unfolding build_start bridge_cache found_topic has wildcards_in
  build_start-Built broker_id bridge_id =
      let ((stopped, brokers), e, one, all) =
        find_brokers_lem settings registry broker_id bridge_id in
      begun stopped brokers e one all
    where
      begun :
          (stopped : Bool) (brokers : List Str)
          → find_brokers settings registry broker_id bridge_id ≡ some (stopped, brokers)
          → (stopped ≡ true → OneDisabled settings registry broker_id bridge_id)
          → (stopped ≡ false → AllFound settings registry broker_id bridge_id brokers)
          → let c = bridge_cache broker_id bridge_id in
            (d : BridgeCache) × (build_start settings registry c ≡ some d)
            × Built c d
            × (Disabled settings registry d ⊎ Found settings registry d)
      begun true brokers e one all =
          let d : BridgeCache = record (bridge_cache broker_id bridge_id) {
            brokers = brokers;
            brokers_iter = brokers;
            topic_routing_enabled = false;
            state = completed;
          } in
          let r : Disabled settings registry d = record {
            disabled = refl;
            complete = refl;
            one = one refl;
          } in
          (d, rw (e, build_start) refl, (refl, refl, inr (inl r)), inl r)
      begun false [] e one all =
          let d : BridgeCache = record (bridge_cache broker_id bridge_id) {
            brokers = [];
            brokers_iter = [];
            topic_routing_enabled = true;
            state = completed;
          } in
          let r : Found settings registry d = record {
            enabled = refl;
            brokers_right = all refl;
            topics_right = (tt, refl, λ t. refl);
            split = record { cached_in = λ x h. h; left_in = λ x h. h; all = λ x h. inl h };
            stage = inl (refl, refl);
          } in
          (d, rw (e, build_start) refl, (refl, refl, inr (inr r)), inr r)
      begun false (id ∷ ids) e one all =
          let d : BridgeCache = record (bridge_cache broker_id bridge_id) {
            brokers = id ∷ ids;
            brokers_iter = id ∷ ids;
            topic_routing_enabled = true;
            state = building;
          } in
          let r : Found settings registry d = record {
            enabled = refl;
            brokers_right = all refl;
            topics_right = (tt, refl, λ t. refl);
            split = record { cached_in = λ x h. cc; left_in = λ x h. h; all = λ x h. inr (inl h) };
            stage = inr (refl, id, ids, refl);
          } in
          (d, rw (e, build_start) refl, (refl, refl, inr (inr r)), inr r)

  pub increment_building :
      (c : BridgeCache) (id : Str) (ids : List Str)
      → c.state ≡ building
      → c.brokers_iter ≡ id ∷ ids
      → build_cache_increment settings registry c
        ≡ some (build_step ids (cache_broker registry id c))
  unfolding build_cache_increment build_next
  increment_building c id ids b e = ground arith

  increment_completed :
      (c : BridgeCache) → c.state ≡ completed → build_cache_increment settings registry c ≡ some c
  unfolding build_cache_increment
  increment_completed c b = ground arith

  -- A step of the building, for any cache that is right.
  pub build_cache_increment-Built :
      (c : BridgeCache)
      → CacheRight settings registry c
      → (d : BridgeCache) × (build_cache_increment settings registry c ≡ some d) × Built c d
  build_cache_increment-Built c (inl e) =
      subst
        (λ (x : BridgeCache).
          (d : BridgeCache) × (build_cache_increment settings registry x ≡ some d) × Built x d)
        (sym e)
        (let (d, eq, b, r) = build_start-Built c.broker_id c.bridge_id in
          (d, unfold build_cache_increment bridge_cache in eq, b))
  build_cache_increment-Built c (inr (inl r)) =
      (c, increment_completed c r.complete, (refl, refl, inr (inl r)))
  build_cache_increment-Built c (inr (inr r)) = elim r.stage [
    | inl (b, _) ↦ (c, increment_completed c b, (refl, refl, inr (inr r)))
    | inr (b, id, ids, e) ↦ (
      build_step ids (cache_broker registry id c),
      increment_building c id ids b e,
      (build_next-Built c id ids r b e).0,
    )
  ]

-- ===== src/Fabric/Bridge/Build/Ends.antt =====
-- The building of a cache of topics ends.
use opendxl_broker.Prelude.{
  ℕ, suc, ◌≡◌, refl, sym, subst, ◌∙◌, inl, inr, true, false, some, List, [], ◌∷◌, Str, length,
  arith,
}
use opendxl_broker.Fabric.State.{Settings}
use opendxl_broker.Fabric.Registry.{Registry}
use opendxl_broker.Fabric.Bridge.{
  BridgeCache, building, completed, bridge_cache, cache_broker, build_step, build_cache_increment,
  is_complete, build_cache,
}
use opendxl_broker.Fabric.Bridge.Right.{Found, Disabled, CacheRight}
use opendxl_broker.Fabric.Bridge.Build.Steps.{
  Built, build_next-Built, build_start-Built, increment_building,
}

module _ (settings : Settings) (registry : Registry) where
  is_complete-completed : (c : BridgeCache) → c.state ≡ completed → is_complete c ≡ true
  unfolding is_complete
  is_complete-completed c e = rw (e, is_complete) refl

  is_complete-building : (c : BridgeCache) → c.state ≡ building → is_complete c ≡ false
  unfolding is_complete
  is_complete-building c e = rw (e, is_complete) refl

  abbrev pub Ends : ℕ → BridgeCache → Type 0
  Ends fuel c =
      (d : BridgeCache) × (build_cache settings registry fuel c ≡ some d)
      × (is_complete d ≡ true)
      × Built settings registry c d

  -- A complete cache stays as it is.
  Ends-complete :
      (fuel : ℕ) (c : BridgeCache)
      → is_complete c ≡ true
      → Built settings registry c c
      → Ends (suc fuel) c
  unfolding build_cache
  Ends-complete fuel c e b = (c, rw (e, build_cache) refl, e, b)

  Ends-step :
      (fuel : ℕ) (c d : BridgeCache)
      → is_complete c ≡ false
      → build_cache_increment settings registry c ≡ some d
      → Built settings registry c d
      → Ends fuel d
      → Ends (suc fuel) c
  unfolding build_cache
  Ends-step fuel c d e s b (x, eq, done, b') =
      (x, rw (e, build_cache) (rw (s, build_cache) eq), done, (b'.0 ∙ b.0, b'.1 ∙ b.1, b'.2))

  build_cache-Found :
      (ids : List Str) (c : BridgeCache)
      → Found settings registry c
      → c.brokers_iter ≡ ids
      → Ends (suc (length ids)) c
  build_cache-Found [] c r e = elim r.stage [
    | inl (b, _) ↦ Ends-complete 0 c (is_complete-completed c b) (refl, refl, inr (inr r))
    | inr (b, id, ids', f) ↦ absurd (ground (arith, e, f))
  ]
  build_cache-Found (id ∷ ids) c r e = elim r.stage [
    | inl (b, _) ↦
        Ends-complete (suc (length ids)) c (is_complete-completed c b) (refl, refl, inr (inr r))
    | inr (b, _, _, _) ↦
        let next = build_next-Built settings registry c id ids r b e in
        let d = build_step ids (cache_broker registry id c) in
        Ends-step (suc (length ids)) c d (is_complete-building c b)
          (increment_building settings registry c id ids b e) next.0
          (build_cache-Found ids d next.1 next.2)
  ]

  Ends-Disabled : (c : BridgeCache) → Disabled settings registry c → Ends 1 c
  Ends-Disabled c r =
      Ends-complete 0 c (is_complete-completed c r.complete) (refl, refl, inr (inl r))

  build_cache-fresh :
      (broker_id bridge_id : Str) → (fuel : ℕ) × Ends fuel (bridge_cache broker_id bridge_id)
  build_cache-fresh broker_id bridge_id =
      let c = bridge_cache broker_id bridge_id in
      let (d, eq, b, r) = build_start-Built settings registry broker_id bridge_id in
      let step = λ (fuel : ℕ).
        Ends-step fuel c d (unfold is_complete bridge_cache in refl)
          (unfold build_cache_increment bridge_cache in eq) b in
      elim r [
        | inl off ↦ (2, step 1 (Ends-Disabled d off))
        | inr found ↦ (
          suc (suc (length d.brokers_iter)),
          step (suc (length d.brokers_iter)) (build_cache-Found d.brokers_iter d found refl),
        )
      ]

  -- A cache for a bridge is right for a registry if it is not begun; or it is complete, and
  -- behind its bridge is a broker with the routing by topics disabled; or it has just the brokers
  -- behind its bridge, none of which has it disabled, the topics of those that it has gone
  -- through without doubles, and the count of their wildcards. For any such cache: buildCache
  -- ends, and leaves a complete cache for the same broker and bridge, which is right too.
  pub build_cache-Built :
      (c : BridgeCache) → CacheRight settings registry c → (fuel : ℕ) × Ends fuel c
  build_cache-Built c (inl e) =
      subst (λ (x : BridgeCache). (fuel : ℕ) × Ends fuel x) (sym e)
        (build_cache-fresh c.broker_id c.bridge_id)
  build_cache-Built c (inr (inl r)) = (1, Ends-Disabled c r)
  build_cache-Built c (inr (inr r)) =
      (suc (length c.brokers_iter), build_cache-Found c.brokers_iter c r refl)

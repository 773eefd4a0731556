-- ===== src/Fabric/TopicCache/Enabled.antt =====
-- When the cache of topics is trusted: where it was enabled, its caches are right for the registry.
use opendxl_broker.Prelude.{
  ℕ, ◌≡◌, refl, sym, subst, ◌∙◌, ◌⊎◌, inl, inr, true, List, [], ◌&&◌, not, Str, All, arith,
  Bool-cases,
}
use opendxl_broker.Fabric.State.{Settings}
use opendxl_broker.Fabric.Registry.{Registry}
use opendxl_broker.Fabric.Bridge.Right.{CacheRight}
use opendxl_broker.Fabric.TopicCache.{
  BrokerCache, CacheSettings, TopicCacheService, is_enabled, reset_time, clear_cache, check_enabled,
  clear_cache_with_delay,
}

abbrev pub BrokerRight : Settings → Registry → Str → BrokerCache → Type 0
BrokerRight settings registry id =
    All (λ e. (e.1.broker_id ≡ id) × (e.1.bridge_id ≡ e.0) × CacheRight settings registry e.1)

abbrev pub AllRight : Settings → Registry → List (Str × BrokerCache) → Type 0
AllRight settings registry = All (λ b. BrokerRight settings registry b.0 b.1)

abbrev pub ServiceRight : Settings → Registry → TopicCacheService → Type 0
ServiceRight settings registry service =
    service.was_enabled ≡ true → AllRight settings registry service.broker_cache_by_id

module _ (settings : Settings) (registry : Registry) (cache_settings : CacheSettings)
    (now : ℕ) where
  reset_time_lem :
      (service : TopicCacheService)
      → ((reset_time cache_settings now service).broker_cache_by_id ≡ service.broker_cache_by_id)
        × ((reset_time cache_settings now service).was_enabled ≡ service.was_enabled)
  unfolding reset_time
  reset_time_lem service = ground arith

  -- A cache that is cleared, whatever it was, is right for any registry.
  pub clear_cache-ServiceRight :
      (delay : ℕ) (service : TopicCacheService)
      → ServiceRight settings registry (clear_cache cache_settings now service)
        × ServiceRight settings registry (clear_cache_with_delay cache_settings now delay service)
  unfolding clear_cache clear_cache_with_delay
  clear_cache-ServiceRight delay service =
      elim (Bool-cases (is_enabled cache_settings now service)) [
        | inl e ↦ rw e ((λ _. tt), λ _. tt)
        | inr e ↦ rw e ((λ h. absurd (ground (arith, h))), λ h. absurd (ground (arith, h)))
      ]

  reset_time-enabled :
      (service : TopicCacheService)
      → is_enabled cache_settings now service ≡ true
      → is_enabled cache_settings now (reset_time cache_settings now service) ≡ true
  unfolding is_enabled reset_time
  reset_time-enabled service e = ground (arith, e)

  cleared :
      (service : TopicCacheService)
      → is_enabled cache_settings now service ≡ true
      → (clear_cache cache_settings now service).broker_cache_by_id ≡ []
  unfolding clear_cache
  cleared service e = rw e refl

  -- The test of the cache keeps it right, and where it says yes all caches are right.
  pub check_enabled-ServiceRight :
      (service : TopicCacheService)
      → ServiceRight settings registry service
      → let res = check_enabled cache_settings now service in
        ((res.0 ≡ true → AllRight settings registry res.1.broker_cache_by_id)
          × (res.1.was_enabled ≡ res.0))
  unfolding check_enabled
  check_enabled-ServiceRight service h =
      let reset = reset_time cache_settings now service in
      (
        λ e. elim (Bool-cases (not reset.was_enabled && is_enabled cache_settings now service)) [
          | inl k ↦ rw k (
              subst (AllRight settings registry)
                (sym (cleared reset (reset_time-enabled service e))) tt)
          | inr k ↦ rw k (
              subst (AllRight settings registry) (sym (reset_time_lem service).0)
                (h (sym (reset_time_lem service).1 ∙ ground (arith, k, e))))
        ],
        refl,
      )

  -- The test leaves the caches or clears them.
  pub check_enabled-caches :
      (service : TopicCacheService)
      → ((check_enabled cache_settings now service).1.broker_cache_by_id
          ≡ service.broker_cache_by_id)
        ⊎ ((check_enabled cache_settings now service).1.broker_cache_by_id ≡ [])
  unfolding check_enabled
  check_enabled-caches service =
      let reset = reset_time cache_settings now service in
      elim (Bool-cases (not reset.was_enabled && is_enabled cache_settings now service)) [
        | inl k ↦ inr (rw k (cleared reset (reset_time-enabled service (ground (arith, k)))))
        | inr k ↦ inl (rw k (reset_time_lem service).0)
      ]

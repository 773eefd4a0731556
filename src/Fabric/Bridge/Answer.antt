-- ===== src/Fabric/Bridge/Answer.antt =====
-- What a complete cache answers, against the walk down the fabric.
pub mod Topics
pub mod Walk
use opendxl_broker.Prelude.{
  ℕ, ◌^◌, ◌<◌, ◌≡◌, ◌≢◌, refl, sym, ap, subst, ◌∙◌, ◌⊎◌, inl, inr, Bool, true, false, Option, none,
  some, List, [], ◌∷◌, ◌++◌, ◌||◌, ◌&&◌, not, Str, All, ℤ, pos, ltb_ℤ, str_eq, str_eq→eq,
  str_eq_refl, has, find, length, if◌then◌else◌, arith, Bool-cases, Option-cases,
}
use opendxl_broker.Topic.Wildcards.{pound_char}
use opendxl_broker.Topic.Covers.{prefix, coverings, covering, NoSlash, covering-is_wildcard}
use opendxl_broker.Topic.Covers.Loop.{wildcards-prefix}
use opendxl_broker.Fabric.State.{Settings, BrokerState, has_topic, is_topic_routing_enabled}
use opendxl_broker.Fabric.Registry.{Registry, has_one_of, is_subscriber, is_subscriber_in_broker}
use opendxl_broker.Fabric.Counted.{wildcards_in, TopicsCounted}
use opendxl_broker.Fabric.Subscriber.{has-wildcard, is_subscriber-coverings}
use opendxl_broker.Fabric.Hierarchy.{is_subscriber_in_hierarchy}
use opendxl_broker.Fabric.Hierarchy.Route.{Route}
use opendxl_broker.Fabric.Hierarchy.Search.{is_subscriber_in_hierarchy_correct}
use opendxl_broker.Fabric.Bridge.{
  BridgeCache, completed, allow_visit, find_visit, has_topic_in_broker, found_topic, has_one,
  cached_answer, is_complete, bridge_is_subscriber, build_cache_increment, bridge_cache,
}
use opendxl_broker.Fabric.Bridge.Walk.{Behind}
use opendxl_broker.Fabric.Bridge.Right.{Holds, Found, Disabled, CacheRight, found_topic-has}
use opendxl_broker.Fabric.Bridge.Build.Steps.{Built, build_cache_increment-Built}

-- Every broker has fewer than 2^32 topics, with the count of their wildcards.
abbrev pub RegistryCounted : Registry → Type 0
RegistryCounted = All (λ r. TopicsCounted r.1 × (length r.1.subscriptions < 2 ^ 32))

pub find-RegistryCounted :
    (id : Str) (state : BrokerState) (registry : Registry)
    → RegistryCounted registry
    → find id registry ≡ some state
    → TopicsCounted state × (length state.subscriptions < 2 ^ 32)
unfolding find
find-RegistryCounted id state [] c e = cc
find-RegistryCounted id state ((key, s) ∷ r) c e = elim (Bool-cases (str_eq key id)) [
  | inl f ↦
      let same : s ≡ state = ground (arith, e, f) in
      subst (λ (x : BrokerState). TopicsCounted x × (length x.subscriptions < 2 ^ 32)) same c.0
  | inr f ↦ find-RegistryCounted id state r c.1 (ground (arith, e, f))
]

pub has_one_of-has_one :
    (ws : List Str) (state : BrokerState) → has_one_of ws state ≡ has_one ws state.subscriptions
unfolding has_one_of has_one has_topic
has_one_of-has_one [] state = refl
has_one_of-has_one (w ∷ ws) state = ground (arith, has_one_of-has_one ws state)

pub has_one-some :
    (ws ts : List Str) → has_one ws ts ≡ true → (t : Str) × (has t ws ≡ true) × (has t ts ≡ true)
unfolding has_one has
has_one-some [] ts h = cc
has_one-some (w ∷ ws) ts h = elim (Bool-cases (has w ts)) [
  | inl e ↦ (w, ground (arith, str_eq_refl w), e)
  | inr e ↦ let (t, f, g) = has_one-some ws ts (ground (arith, h, e)) in (t, ground (arith, f), g)
]

pub some-has_one :
    (ws ts : List Str) (t : Str) → has t ws ≡ true → has t ts ≡ true → has_one ws ts ≡ true
unfolding has_one has
some-has_one [] ts t h k = cc
some-has_one (w ∷ ws) ts t h k = elim (Bool-cases (str_eq w t)) [
  | inl e ↦ ground (arith, ap (λ y. has y ts) (str_eq→eq w t e), k)
  | inr e ↦ ground (arith, e, h, some-has_one ws ts t)
]

pub found_topic-some :
    (registry : Registry) (t : Str) (ids : List Str)
    → found_topic registry t ids ≡ true
    → (id : Str) × (has id ids ≡ true) × (has_topic_in_broker registry t id ≡ true)
unfolding found_topic has
found_topic-some registry t [] h = cc
found_topic-some registry t (id ∷ ids) h = elim (Bool-cases (has_topic_in_broker registry t id)) [
  | inl e ↦ (id, ground (arith, str_eq_refl id), e)
  | inr e ↦
      let (x, f, g) = found_topic-some registry t ids (ground (arith, h, e)) in
      (x, ground (arith, f), g)
]

pub has_topic_in_broker-some :
    (registry : Registry) (t id : Str)
    → has_topic_in_broker registry t id ≡ true
    → (state : BrokerState) × (find id registry ≡ some state) × (has t state.subscriptions ≡ true)
unfolding has_topic_in_broker has_topic
has_topic_in_broker-some registry t id h = elim (Option-cases (find id registry)) [
  | inl e ↦ absurd (ground (arith, h, e))
  | inr (state, e) ↦ (state, e, sym (rw (e, has_topic_in_broker) refl) ∙ h)
]

-- No covering wildcard is among topics without wildcards.
pub has_one-none : (rs ts : List Str) → wildcards_in ts ≡ 0 → has_one (coverings rs) ts ≡ false
unfolding has_one coverings
has_one-none [] ts h = rw (has-wildcard (covering []) ts (covering-is_wildcard []) h) refl
has_one-none (r ∷ rs) ts h =
    rw (has-wildcard (covering (r ∷ rs)) ts (covering-is_wildcard (r ∷ rs)) h)
      (has_one-none rs ts h)

-- ===== src/Fabric/Subscriber.antt =====
-- Which topics a broker is said to have subscribers for.
use opendxl_broker.Prelude.{
  ◌^◌, ◌≤◌, ◌<◌, ◌≡◌, ◌≢◌, refl, ap, ◌∙◌, inl, inr, true, false, some, List, [], ◌∷◌, ◌++◌, ◌||◌,
  not, Str, All, str_eq, str_eq→eq, has, ltb, length, arith, Bool-cases,
}
use opendxl_broker.Topic.Wildcards.{pound_char}
use opendxl_broker.Topic.Iterate.{is_wildcard}
use opendxl_broker.Topic.Covers.{prefix, coverings, covering, NoSlash, covering-is_wildcard}
use opendxl_broker.Topic.Covers.Loop.{wildcards-prefix}
use opendxl_broker.Fabric.State.{Settings, BrokerState, has_topic, is_topic_routing_enabled}
use opendxl_broker.Fabric.Registry.{has_one_of, is_subscriber}
use opendxl_broker.Fabric.Counted.{wildcards_in, TopicsCounted}

wildcards_in_le : (ts : List Str) → wildcards_in ts ≤ length ts
unfolding wildcards_in
wildcards_in_le [] = omega arith
wildcards_in_le (t ∷ ts) = ground (arith, wildcards_in_le ts)

-- No wildcard is among topics without wildcards.
pub has-wildcard :
    (t : Str) (ts : List Str) → is_wildcard t ≡ true → wildcards_in ts ≡ 0 → has t ts ≡ false
unfolding wildcards_in has
has-wildcard t [] w h = refl
has-wildcard t (x ∷ ts) w h =
    let same = λ (e : str_eq x t ≡ true). ap is_wildcard (str_eq→eq x t e) ∙ w in
    ground (arith, same, has-wildcard t ts w, h)

has_one_of-none :
    (rs : List Str) (state : BrokerState)
    → wildcards_in state.subscriptions ≡ 0
    → has_one_of (coverings rs) state ≡ false
unfolding has_one_of coverings has_topic
has_one_of-none [] state h =
    rw (has-wildcard (covering []) state.subscriptions (covering-is_wildcard []) h) refl
has_one_of-none (r ∷ rs) state h =
    rw (has-wildcard (covering (r ∷ rs)) state.subscriptions (covering-is_wildcard (r ∷ rs)) h)
      (has_one_of-none rs state h)

pub is_subscriber-coverings :
    (settings : Settings) (state : BrokerState) (rs : List Str) (l : Str)
    → TopicsCounted state
    → length state.subscriptions < 2 ^ 32
    → All NoSlash rs
    → NoSlash l
    → l ≢ (pound_char ∷ [])
    → is_subscriber settings (prefix rs ++ l) state
      ≡ some (
          not (is_topic_routing_enabled settings state.broker)
          || has_one_of ((prefix rs ++ l) ∷ coverings rs) state)
unfolding is_subscriber has_one_of
is_subscriber-coverings settings state rs l c small ns n h =
    elim (Bool-cases (not (is_topic_routing_enabled settings state.broker))) [
      | inl e ↦ rw e refl
      | inr e ↦ elim (Bool-cases (has_topic (prefix rs ++ l) state)) [
        | inl f ↦ rw (e, f) refl
        | inr f ↦ elim (Bool-cases (ltb 0 state.subscriptions_wildcard_count)) [
          | inl g ↦ rw (e, f, g, wildcards-prefix rs l ns n h) refl
          | inr g ↦
              rw
                (
                  e,
                  f,
                  g,
                  has_one_of-none rs state
                      (ground (arith, c.0.1, g, small, wildcards_in_le state.subscriptions)),
                )
                refl
        ]
      ]
    ]

-- ===== src/Fabric/Changes/Routed.antt =====
-- The routes of the cache stay right when the fabric changes.
use opendxl_broker.Prelude.{
  is_empty, ◌||◌, has, ℕ, ◌≡◌, refl, sym, ap, ◌∙◌, inl, inr, Bool, true, false, Option, none, some,
  List, [], ◌∷◌, Str, str_eq, str_eq→eq, find, assign, find-assign, ◌==◌, if_intro, Bool-cases,
  Option-cases,
}
use opendxl_broker.Fabric.State.{
  Settings, Broker, BrokerState, get_connections, add_topic, remove_topic, add_pending_topics,
  swap_pending_topics, clear_pending_topics, add_connection, remove_connection, set_connections,
  is_expired,
}
use opendxl_broker.Fabric.Registry.{Registry, connections_of, remove_broker}
use opendxl_broker.Fabric.Path.{Routes}
use opendxl_broker.Fabric.Path.Walks.{Walk}
use opendxl_broker.Fabric.Path.Next.{RoutesRight}
use opendxl_broker.Fabric.Changes.{
  Fabric, put_new_broker, add_broker, remove_broker_from, change_topics, add_topic_to,
  remove_topic_from, add_pending_topics_to, swap_pending_topics_of, update_registration_time,
  change_connections, add_connection_to, remove_connection_from, set_connections_of, remove_expired,
}

abbrev pub Routed : Fabric → Type 0
Routed fabric = RoutesRight fabric.registry fabric.routes

-- A walk in a registry where every broker has the connections of another one.
module _ (r s : Registry) (same : (a : Str) → connections_of r a ≡ connections_of s a) where
  kept : (a c : Str) → has c (connections_of r a) ≡ true → has c (connections_of s a) ≡ true
  kept a c e = ap (has c) (sym (same a)) ∙ e

  Walk-kept : (a b : Str) (ids : List Str) → Walk r a b ids → Walk s a b ids
  Walk-kept a b ids (Walk.here b') = Walk.here b
  Walk-kept a b ids (Walk.step a' c b' ids' e w) =
      Walk.step a c b ids' (kept a c e) (Walk-kept c b ids' w)

  RoutesRight-kept : (routes : Routes) → RoutesRight r routes → RoutesRight s routes
  RoutesRight-kept [] h = tt
  RoutesRight-kept (((from, to), next) ∷ routes) h = (
    (kept from next h.0.0, (h.0.1.0, Walk-kept next to h.0.1.0 h.0.1.1)),
    RoutesRight-kept routes h.1,
  )

connections_of-find :
    (r : Registry) (a : Str) (o : Option BrokerState)
    → find a r ≡ o
    → connections_of r a
      ≡ (elim o as (λ _. List Str) [ none ↦ [] | some state ↦ get_connections state ])
unfolding connections_of
connections_of-find r a o e = rw (e, connections_of) refl

-- A state that is put back with the same connections.
pub connections_of-assign :
    (id : Str) (old new : BrokerState) (r : Registry)
    → find id r ≡ some old
    → get_connections new ≡ get_connections old
    → (a : Str) → connections_of r a ≡ connections_of (assign id new r) a
connections_of-assign id old new r e same a = elim (Bool-cases (str_eq id a)) [
  | inl f ↦
      connections_of-find r a (some old) (ap (λ x. find x r) (sym (str_eq→eq id a f)) ∙ e)
      ∙ sym same
      ∙ sym
          (connections_of-find (assign id new r) a (some new) (find-assign id a new r ∙ rw f refl))
  | inr f ↦
      connections_of-find r a (find a r) refl
      ∙ sym
          (connections_of-find (assign id new r) a (find a r) (find-assign id a new r ∙ rw f refl))
]

change_topics-Routed :
    (change : BrokerState → Bool × BrokerState) (id : Str) (fabric : Fabric)
    → ((state : BrokerState) → get_connections (change state).1 ≡ get_connections state)
    → Routed fabric
    → Routed (change_topics change id fabric).1
unfolding change_topics
change_topics-Routed change id fabric same h = elim (Option-cases (find id fabric.registry)) [
  | inl e ↦ rw (e, change_topics) h
  | inr (state, e) ↦
      rw (e, change_topics)
        (RoutesRight-kept fabric.registry (assign id (change state).1 fabric.registry)
          (connections_of-assign id state (change state).1 fabric.registry e (same state))
          fabric.routes h)
]

change_connections-Routed :
    (change : BrokerState → BrokerState) (id : Str) (fabric : Fabric)
    → Routed fabric
    → Routed (change_connections change id fabric).1
unfolding change_connections
change_connections-Routed change id fabric h = elim (Option-cases (find id fabric.registry)) [
  | inl e ↦ rw (e, change_connections) h
  | inr (state, e) ↦ rw (e, change_connections) tt
]

add_broker-Routed :
    (now : ℕ) (broker : Broker) (fabric : Fabric)
    → Routed fabric
    → Routed (add_broker now broker fabric).1
unfolding add_broker put_new_broker get_connections
add_broker-Routed now broker fabric h =
    elim (Bool-cases (is_empty broker.id || is_empty broker.hostname)) [
      | inl e ↦ rw e h
      | inr e ↦ elim (Option-cases (find broker.id fabric.registry)) [
        | inl f ↦ rw (e, f, add_broker) tt
        | inr (state, f) ↦ elim (Bool-cases (state.broker.start_time == broker.start_time)) [
          | inr g ↦ rw (e, f, add_broker, g) tt
          | inl g ↦
              rw (e, f, add_broker, g)
                (RoutesRight-kept fabric.registry _
                  (connections_of-assign broker.id state (record state { broker = broker })
                    fabric.registry f refl)
                  fabric.routes h)
        ]
      ]
    ]

remove_broker_from-Routed :
    (settings : Settings) (id : Str) (fabric : Fabric)
    → Routed fabric
    → Routed (remove_broker_from settings id fabric).1
unfolding remove_broker_from
remove_broker_from-Routed settings id fabric h =
    elim (Bool-cases (remove_broker settings id fabric.registry).0) [
      | inl e ↦ rw e tt
      | inr e ↦ rw e h
    ]

set_connections_of-Routed :
    (id : Str) (ids child_ids : List Str) (fabric : Fabric)
    → Routed fabric
    → Routed (set_connections_of id ids child_ids fabric).1
unfolding set_connections_of
set_connections_of-Routed id ids child_ids fabric h =
    elim (Option-cases (find id fabric.registry)) [
      | inl e ↦ rw (e, set_connections_of) h
      | inr (state, e) ↦ elim (Bool-cases (set_connections ids child_ids state).0) [
        | inl f ↦ rw (e, set_connections_of, f) tt
        | inr f ↦ rw (e, set_connections_of, f) h
      ]
    ]

remove_expired-Routed :
    (settings : Settings) (now : ℕ) (brokers : Registry) (fabric : Fabric)
    → Routed fabric
    → Routed (remove_expired settings now brokers fabric)
unfolding remove_expired
remove_expired-Routed settings now [] fabric h = h
remove_expired-Routed settings now ((id, state) ∷ brokers) fabric h =
    elim (Option-cases (find id fabric.registry)) [
      | inl e ↦ rw (e, remove_expired) (remove_expired-Routed settings now brokers fabric h)
      | inr (state', e) ↦
          rw (e, remove_expired)
            (remove_expired-Routed settings now brokers _ (
              if_intro Routed (is_expired settings now state')
                (remove_broker_from settings id fabric).1 fabric
                (λ _. remove_broker_from-Routed settings id fabric h) (λ _. h)))
    ]

pub add_topic-connections :
    (settings : Settings) (topic : Str) (state : BrokerState)
    → (get_connections (add_topic settings topic state).1 ≡ get_connections state)
      × (get_connections (remove_topic settings topic state).1 ≡ get_connections state)
unfolding add_topic remove_topic get_connections
add_topic-connections settings topic state = elim (Bool-cases (has topic state.subscriptions)) [
  | inl e ↦ (rw e refl, rw e refl)
  | inr e ↦ (rw e refl, rw e refl)
]

-- For a registry and a cache in which every route goes to a connection of its first broker that has
-- a walk to its second: this also holds after addBroker, removeBroker, addConnection,
-- removeConnection, setConnections, addTopic, removeTopic, addPendingTopics with swapPendingTopics
-- behind it, updateRegistrationTime, and the removal of expired brokers.
pub fabric-Routed :
    (settings : Settings) (now count : ℕ) (broker : Broker) (id connection topic : Str)
    (is_child : Bool) (ids child_ids : List Str) (fabric : Fabric)
    → Routed fabric
    → Routed (add_broker now broker fabric).1
      × Routed (remove_broker_from settings id fabric).1
      × Routed (add_connection_to id connection is_child fabric).1
      × Routed (remove_connection_from id connection fabric).1
      × Routed (set_connections_of id ids child_ids fabric).1
      × Routed (add_topic_to settings id topic fabric).1
      × Routed (remove_topic_from settings id topic fabric).1
      × Routed (swap_pending_topics_of id (add_pending_topics_to id ids count fabric).1).1
      × Routed (update_registration_time now id fabric).1
      × Routed (remove_expired settings now fabric.registry fabric)
unfolding add_connection_to remove_connection_from add_topic_to remove_topic_from
    add_pending_topics_to swap_pending_topics_of update_registration_time get_connections
    add_pending_topics swap_pending_topics clear_pending_topics
fabric-Routed settings now count broker id connection topic is_child ids child_ids fabric h = (
  add_broker-Routed now broker fabric h,
  remove_broker_from-Routed settings id fabric h,
  if_intro {A = Bool × Fabric} (λ x. Routed x.1) (is_empty connection) (false, fabric) _ (λ _. h)
      (λ _. change_connections-Routed (add_connection connection is_child) id fabric h),
  if_intro {A = Bool × Fabric} (λ x. Routed x.1) (is_empty connection) (false, fabric) _ (λ _. h)
      (λ _. change_connections-Routed (remove_connection connection) id fabric h),
  set_connections_of-Routed id ids child_ids fabric h,
  change_topics-Routed (add_topic settings topic) id fabric
      (λ state. (add_topic-connections settings topic state).0) h,
  change_topics-Routed (remove_topic settings topic) id fabric
      (λ state. (add_topic-connections settings topic state).1) h,
  change_topics-Routed (λ state. (true, swap_pending_topics state)) id _ (λ state. refl)
      (change_topics-Routed (λ state. (true, add_pending_topics ids count state)) id fabric
        (λ state. refl) h),
  change_topics-Routed (λ state. (true, record state { reg_time = now })) id fabric (λ state. refl)
      h,
  remove_expired-Routed settings now fabric.registry fabric h,
)

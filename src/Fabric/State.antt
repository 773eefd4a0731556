-- ===== src/Fabric/State.antt =====
-- BrokerState of src/brokerlib/brokerregistry/src/brokerstate.cpp, and of the class Broker what the
-- registry uses. The settings and the time are parameters; the sets are lists without order.
use opendxl_broker.Prelude.{
  ℕ, ◌+◌, ◌-◌, ◌*◌, ◌%◌, ◌^◌, Bool, true, false, none, some, List, [], ◌∷◌, ◌&&◌, Str, str_eq, has,
  insert, erase, find, assign, remove, keys, ltb, ◌==◌, if◌then◌else◌,
}
use opendxl_broker.Topic.Iterate.{is_wildcard}

-- What is read of BrokerSettings.
pub record Settings : Type 0 where
  pub guid : Str
  pub ttl_grace_period_mins : ℕ
  pub topic_routing_enabled : Bool

pub record Broker : Type 0 where
  pub id : Str
  pub hostname : Str
  pub port : ℕ
  pub ttl : ℕ
  pub start_time : ℕ
  pub connection_limit : ℕ
  pub topic_routing_enabled : Bool

unfoldable pub is_local_broker : Settings → Broker → Bool
is_local_broker settings broker = str_eq broker.id settings.guid

unfoldable pub is_topic_routing_enabled : Settings → Broker → Bool
is_topic_routing_enabled settings broker =
    if is_local_broker settings broker
    then settings.topic_routing_enabled
    else broker.topic_routing_enabled

-- `m_subscriptions` with its count of wildcards, and those that are pending.
pub record BrokerState : Type 0 where
  pub broker : Broker
  pub counted_connections : List (Str × ℕ)
  pub child_connections : List Str
  pub subscriptions : List Str
  pub subscriptions_wildcard_count : ℕ
  pub pending_subscriptions : List Str
  pub pending_subscriptions_wildcard_count : ℕ
  pub subscriptions_change_count : ℕ
  pub reg_time : ℕ

-- Unsigned numbers of 32 bits.
abbrev pub add_u32 : ℕ → ℕ → ℕ
add_u32 a b = (a + b) % 2 ^ 32

abbrev pub dec_u32 : ℕ → ℕ
dec_u32 a = (a + (2 ^ 32 - 1)) % 2 ^ 32

unfoldable pub add_connection : Str → Bool → BrokerState → BrokerState
add_connection connection_id is_child state =
    let times : ℕ = elim (find connection_id state.counted_connections) [
      | none ↦ 1
      | some n ↦ add_u32 n 1
    ] in
    record state {
      counted_connections = assign connection_id times state.counted_connections;
      child_connections =
          if is_child
          then insert connection_id state.child_connections
          else state.child_connections;
    }

unfoldable pub remove_connection : Str → BrokerState → BrokerState
remove_connection connection_id state = elim (find connection_id state.counted_connections) [
  | none ↦ state
  | some n ↦
      if dec_u32 n == 0
      then record state {
        counted_connections = remove connection_id state.counted_connections;
        child_connections = erase connection_id state.child_connections;
      }
      else record state {
        counted_connections = assign connection_id (dec_u32 n) state.counted_connections;
      }
]

unfoldable pub has_connection : Str → BrokerState → Bool
has_connection connection_id state = elim (find connection_id state.counted_connections) [
  | none ↦ false
  | some n ↦ true
]

unfoldable pub get_connections : BrokerState → List Str
get_connections state = keys state.counted_connections

-- Each of the first is in the second.
unfoldable pub included : List Str → List Str → Bool
included [] ys = true
included (x ∷ xs) ys = has x ys && included xs ys

unfoldable pub add_connections : List Str → List Str → BrokerState → BrokerState
add_connections [] child_ids state = state
add_connections (id ∷ ids) child_ids state =
    add_connections ids child_ids (add_connection id (has id child_ids) state)

-- The new state, and whether it was changed. Sets are equal if each includes the other.
unfoldable pub set_connections : List Str → List Str → BrokerState → Bool × BrokerState
set_connections ids child_ids state =
    if (included ids (get_connections state) && included (get_connections state) ids)
      && (included child_ids state.child_connections && included state.child_connections child_ids)
    then (false, state)
    else (
      true,
      add_connections ids child_ids
          (record state { counted_connections = []; child_connections = [] }),
    )

unfoldable pub has_topic : Str → BrokerState → Bool
has_topic topic state = has topic state.subscriptions

unfoldable pub has_topics : List Str → BrokerState → Bool
has_topics [] state = true
has_topics (topic ∷ topics) state =
    let rest = has_topics topics state in if has topic state.subscriptions then rest else false

unfoldable pub add_topic : Settings → Str → BrokerState → Bool × BrokerState
add_topic settings topic state = if has topic state.subscriptions then (false, state) else (
  true,
  record state {
    subscriptions = insert topic state.subscriptions;
    subscriptions_change_count =
        if is_local_broker settings state.broker
        then add_u32 state.subscriptions_change_count 1
        else state.subscriptions_change_count;
    subscriptions_wildcard_count =
        if is_wildcard topic
        then add_u32 state.subscriptions_wildcard_count 1
        else state.subscriptions_wildcard_count;
  },
)

unfoldable pub remove_topic : Settings → Str → BrokerState → Bool × BrokerState
remove_topic settings topic state =
    if has topic state.subscriptions
    then (
      true,
      record state {
        subscriptions = erase topic state.subscriptions;
        subscriptions_change_count =
            if is_local_broker settings state.broker
            then add_u32 state.subscriptions_change_count 1
            else state.subscriptions_change_count;
        subscriptions_wildcard_count =
            if is_wildcard topic
            then dec_u32 state.subscriptions_wildcard_count
            else state.subscriptions_wildcard_count;
      },
    )
    else (false, state)

-- The product is one of 32 bits.
unfoldable pub is_expired : Settings → ℕ → BrokerState → Bool
is_expired settings current state =
    if str_eq state.broker.id settings.guid
    then false
    else ltb ((add_u32 state.broker.ttl settings.ttl_grace_period_mins * 60) % 2 ^ 32)
        (current - state.reg_time)

unfoldable pub insert_all : List Str → List Str → List Str
insert_all [] ys = ys
insert_all (x ∷ xs) ys = insert_all xs (insert x ys)

unfoldable pub add_pending_topics : List Str → ℕ → BrokerState → BrokerState
add_pending_topics subs wildcard_count state = record state {
  pending_subscriptions = insert_all subs state.pending_subscriptions;
  pending_subscriptions_wildcard_count =
      add_u32 state.pending_subscriptions_wildcard_count wildcard_count;
}

unfoldable pub clear_pending_topics : BrokerState → BrokerState
clear_pending_topics state = record state {
  pending_subscriptions = [];
  pending_subscriptions_wildcard_count = 0;
}

unfoldable pub swap_pending_topics : BrokerState → BrokerState
swap_pending_topics state = clear_pending_topics (record state {
  subscriptions = state.pending_subscriptions;
  subscriptions_wildcard_count = state.pending_subscriptions_wildcard_count;
})

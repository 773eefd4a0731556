-- ===== src/Broker/Context.antt =====
-- struct mosquitto of src/mqtt-core/lib/mosquitto_internal.h, as far as subscriptions and queues
-- read and write it, and what they take from the configuration and from the DXL core.
use opendxl_broker.Prelude.{ℕ, Bool, true, false, Option, List, Str, ℤ, ◌||◌, not}
use opendxl_broker.Broker.Message.{ClientMsg, StoredMsg}

pub data StartType : Type 0 where
  automatic lazy manual once : StartType

abbrev pub is_lazy : StartType → Bool
is_lazy lazy = true
is_lazy _ = false

-- struct _mqtt3_bridge
pub record Bridge : Type 0 where
  pub start_type : StartType
  pub threshold : ℕ
  pub lazy_reconnect : Bool

-- The messages of a context with their two counters. `last_msg` is the end of the list.
pub record Queue : Type 0 where
  pub msgs : List ClientMsg
  pub msg_count : ℤ
  pub msg_count12 : ℤ

pub record Context : Type 0 where
  pub queue : Queue
  pub open queue use *
  pub id : Str
  pub has_sock : Bool
  pub has_wsi : Bool
  pub is_bridge : Bool
  pub bridge : Option Bridge
  pub is_dropping : Bool
  pub last_mid : ℕ
  pub packet_count : ℕ
  pub clean_subs : Bool
  pub dxl_tenant_guid : Option Str
  pub is_ops : Bool
  pub subscription_count : ℤ

-- IS_CONTEXT_INVALID
abbrev pub is_context_invalid : Context → Bool
is_context_invalid c = not (c.has_sock || c.has_wsi)

-- What dxl_on_insert_message answers: whether the context may have the message, whether it gets
-- the client's version of the payload, and that version if the listener has made one.
pub record InsertAnswer : Type 0 where
  pub success : Bool
  pub is_client_message : Bool
  pub client_payload : Option Str

-- The limits, the configuration, the time of the call, and the decisions of the DXL core, which
-- src/mqtt-core/src/dxl/dxl.cpp forwards.
pub record Env : Type 0 where
  pub max_inflight : ℕ
  pub max_queued : ℕ
  pub max_packet_buffer_size : ℕ
  pub queue_qos0_messages : Bool
  pub upgrade_outgoing_qos : Bool
  pub now : ℕ
  pub on_insert_message : Context → StoredMsg → InsertAnswer
  pub on_packet_queue_exceeded : Context → StoredMsg → Bool
  pub is_multi_tenant : Bool
  pub is_tenant_subscription_allowed : Context → Bool

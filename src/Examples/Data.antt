-- ===== src/Examples/Data.antt =====
-- The contexts, messages and configuration of the examples.
use opendxl_broker.Prelude.{ℕ, true, false, none, some, List, [], ◌∷◌, pos, codes}
use opendxl_broker.Broker.Message.{
  Direction, md_in, md_out, MsgState, publish_qos1, queued, Qos, qos1, qos2, StoredMsg, ClientMsg,
  Heap,
}
use opendxl_broker.Broker.Context.{Queue, Context, Env}
use opendxl_broker.Broker.Store.{Store}
use opendxl_broker.Queue.Write.{Network}

-- A client that is connected, with a queue.
abbrev pub client : Queue → Context
client q = record {
  queue = q;
  id = codes "client";
  has_sock = true;
  has_wsi = false;
  is_bridge = false;
  bridge = none;
  is_dropping = false;
  last_mid = 7;
  packet_count = 0;
  clean_subs = true;
  dxl_tenant_guid = none;
  is_ops = false;
  subscription_count = pos 0;
}

abbrev pub entry : ℕ → ℕ → Qos → Direction → MsgState → ClientMsg
entry a mid qos dir state = record {
  store = a;
  mid = mid;
  qos = qos;
  retain = false;
  timestamp = 10;
  direction = dir;
  state = state;
  dup = false;
  client_message = false;
}

-- An outgoing message of quality of service 1 and an incoming one of quality 2, which waits.
abbrev pub two_msgs : List ClientMsg
two_msgs = entry 0 3 qos1 md_out publish_qos1 ∷ entry 1 4 qos2 md_in queued ∷ []

abbrev pub two_queue : Queue
two_queue = record { msgs = two_msgs; msg_count = pos 2; msg_count12 = pos 2 }

abbrev pub empty_queue : Queue
empty_queue = record { msgs = []; msg_count = pos 0; msg_count12 = pos 0 }

-- A message at every address, each with one reference.
abbrev pub stored_msg : StoredMsg
stored_msg = record {
  db_id = 1;
  ref_count = pos 1;
  source_id = codes "source";
  source_mid = 5;
  topic = some (codes "/a/b");
  qos = qos1;
  retain = false;
  payload = codes "payload";
  client_payload = none;
}

abbrev pub heap : Heap
heap a = stored_msg

-- The DXL core admits every message and changes none.
abbrev pub env : Env
env = record {
  max_inflight = 20;
  max_queued = 100;
  max_packet_buffer_size = 500000;
  queue_qos0_messages = false;
  upgrade_outgoing_qos = false;
  now = 100;
  on_insert_message =
      λ c s. record { success = true; is_client_message = false; client_payload = none };
  on_packet_queue_exceeded = λ c s. true;
  is_multi_tenant = false;
  is_tenant_subscription_allowed = λ c. true;
}

-- A network that takes every packet.
abbrev pub network : Network
network sent p = 0

-- Two stored messages, at the addresses 0 and 1.
abbrev pub store : Store
store = record {
  heap = heap;
  msg_store = 1 ∷ 0 ∷ [];
  msg_store_count = pos 2;
  last_db_id = 2;
  next_addr = 2;
}

-- ===== src/Broker/Message.antt =====
-- The messages of src/mqtt-core/src/mosquitto_broker.h and src/mqtt-core/lib/mosquitto_internal.h:
-- stored messages, which contexts and retained nodes share by address, and the entries of a
-- context's queue. A quality of service is 0, 1 or 2 wherever the broker has checked it.
use opendxl_broker.Prelude.{ℕ, Bool, true, false, Option, Str, ℤ, inc, dec, ◌==◌, if◌then◌else◌}

pub data Direction : Type 0 where
  md_in md_out : Direction

pub data MsgState : Type 0 where
  ms_invalid publish_qos0 publish_qos1 wait_for_puback publish_qos2 wait_for_pubrec : MsgState
  resend_pubrel wait_for_pubrel resend_pubcomp wait_for_pubcomp send_pubrec queued : MsgState

pub data Qos : Type 0 where
  qos0 qos1 qos2 : Qos

-- `qos > 0`
abbrev pub is_acked : Qos → Bool
is_acked qos0 = false
is_acked _ = true

-- `if(a > b) b else a`
abbrev pub min_qos : Qos → Qos → Qos
min_qos qos0 b = qos0
min_qos qos1 qos0 = qos0
min_qos qos1 b = qos1
min_qos qos2 b = b

abbrev pub is_out : Direction → Bool
is_out md_out = true
is_out md_in = false

abbrev pub same_direction : Direction → Direction → Bool
same_direction md_in md_in = true
same_direction md_out md_out = true
same_direction _ _ = false

abbrev pub is_queued : MsgState → Bool
is_queued queued = true
is_queued _ = false

-- struct mosquitto_msg_store, with the fields of its struct mosquitto_message. `topic` is NULL for
-- a message that was refused and is only acknowledged.
pub record StoredMsg : Type 0 where
  pub db_id : ℕ
  pub ref_count : ℤ
  pub source_id : Str
  pub source_mid : ℕ
  pub topic : Option Str
  pub qos : Qos
  pub retain : Bool
  pub payload : Str
  pub client_payload : Option Str

-- The objects behind the `struct mosquitto_msg_store *` pointers.
abbrev pub Heap : Type 0
Heap = ℕ → StoredMsg

abbrev pub modify : Heap → ℕ → (StoredMsg → StoredMsg) → Heap
modify h a f b = if a == b then f (h b) else h b

-- `stored->ref_count++` and `stored->ref_count--`
abbrev pub ref : Heap → ℕ → Heap
ref h a = modify h a λ s. record s { ref_count = inc s.ref_count }

abbrev pub unref : Heap → ℕ → Heap
unref h a = modify h a λ s. record s { ref_count = dec s.ref_count }

-- struct mosquitto_client_msg
pub record ClientMsg : Type 0 where
  pub store : ℕ
  pub mid : ℕ
  pub qos : Qos
  pub retain : Bool
  pub timestamp : ℕ
  pub direction : Direction
  pub state : MsgState
  pub dup : Bool
  pub client_message : Bool

-- ===== src/Queue/Insert.antt =====
-- mqtt3_db_message_insert of src/mqtt-core/src/database.c.
use opendxl_broker.Prelude.{
  ℕ, ◌+◌, ◌%◌, Bool, true, false, Option, none, some, [], ◌∷◌, ◌++◌, ◌&&◌, ◌||◌, not, pos, inc,
  ◌-ℤ◌, ltb_ℤ, ltb, leb, ◌==◌, if◌then◌else◌,
}
use opendxl_broker.Broker.Message.{
  Direction, md_in, md_out, MsgState, publish_qos0, publish_qos1, publish_qos2, wait_for_pubrel,
  queued, Qos, qos0, qos1, qos2, is_acked, StoredMsg, ClientMsg, Heap, modify, ref,
}
use opendxl_broker.Broker.Context.{
  Bridge, is_lazy, Queue, Context, is_context_invalid, InsertAnswer, Env,
}

-- What the checks in front of the insertion say: a return code, a dropped message (which returns 2
-- and sets `is_dropping`), or a message that goes into a state, with its return code.
pub data Verdict : Type 0 where
  refuse : ℕ → Verdict
  drop : Verdict
  accept : MsgState → ℕ → Verdict

-- The state of an outgoing message that may be sent, by its quality of service.
abbrev pub publish_state : Qos → MsgState
publish_state qos0 = publish_qos0
publish_state qos1 = publish_qos1
publish_state qos2 = publish_qos2

abbrev pub inflight_state : Direction → Qos → Verdict
inflight_state md_out qos = accept (publish_state qos) 0
inflight_state md_in qos2 = accept wait_for_pubrel 0
inflight_state md_in qos = refuse 1

-- `bridge && bridge->start_type == bst_lazy`
abbrev pub has_lazy_bridge : Option Bridge → Bool
has_lazy_bridge none = false
has_lazy_bridge (some b) = is_lazy b.start_type

-- A context without a connection.
unfoldable pub judge_offline : Env → Context → Qos → Verdict
judge_offline env c qos =
    if not (is_acked qos) && (not env.queue_qos0_messages && not (has_lazy_bridge c.bridge))
    then refuse 2
    else if ltb 0 env.max_queued && not (ltb_ℤ c.msg_count12 (pos env.max_queued))
    then drop
    else accept queued 0

-- A connected context.
unfoldable pub judge_online : Env → Context → StoredMsg → Direction → Qos → Verdict
judge_online env c stored dir qos =
    if leb env.max_packet_buffer_size c.packet_count && env.on_packet_queue_exceeded c stored
    then refuse 2
    else if not (is_acked qos)
        || (env.max_inflight == 0 || ltb_ℤ c.msg_count12 (pos env.max_inflight))
    then inflight_state dir qos
    else if env.max_queued == 0
        || ltb_ℤ (c.msg_count12 -ℤ pos env.max_inflight) (pos env.max_queued)
    then accept queued 2
    else drop

unfoldable pub judge : Env → Context → StoredMsg → Direction → Qos → Verdict
unfolding judge_offline judge_online
judge env c stored dir qos =
    if is_context_invalid c then judge_offline env c qos else judge_online env c stored dir qos

-- The new entry at the end of the queue, and the counters.
unfoldable pub append_msg : Queue → ClientMsg → Queue
append_msg q m = record {
  msgs = q.msgs ++ (m ∷ []);
  msg_count = inc q.msg_count;
  msg_count12 = if is_acked m.qos then inc q.msg_count12 else q.msg_count12;
}

-- A lazy bridge that is not connected is to reconnect from its threshold on.
unfoldable pub wake_bridge : Context → Context
wake_bridge c = record c {
  bridge = elim c.bridge [
    | none ↦ none
    | some b ↦ some (
        if is_lazy b.start_type && (not c.has_sock && not (ltb_ℤ c.msg_count (pos b.threshold)))
        then record b { lazy_reconnect = true }
        else b)
  ];
}

abbrev pub set_client_payload : Heap → ℕ → InsertAnswer → Heap
set_client_payload h a answer = elim answer.client_payload [
  | none ↦ h
  | some p ↦ modify h a λ s. record s { client_payload = some p }
]

-- The part behind the checks: the DXL core may still deny the message, and then 0 is returned.
unfoldable pub admit :
    Env → Heap → Context → ℕ → Direction → Qos → Bool → ℕ → MsgState → ℕ → ℕ × Context × Heap
unfolding append_msg wake_bridge
admit env h c mid dir qos retain a state rc =
    let answer = env.on_insert_message c (h a) in
    let h' = set_client_payload h a answer in
    if answer.success
    then (rc, wake_bridge (record c { queue = append_msg c.queue msg }), ref h' a)
    else (0, c, h')
  where
    msg : ClientMsg
    msg = record {
      store = a;
      mid = mid;
      qos = qos;
      retain = retain;
      timestamp = env.now;
      direction = dir;
      state = state;
      dup = false;
      client_message = (env.on_insert_message c (h a)).is_client_message;
    }

unfoldable pub message_insert :
    Env → Heap → Context → ℕ → Direction → Qos → Bool → ℕ → ℕ × Context × Heap
unfolding judge admit
message_insert env h c mid dir qos retain a = elim (judge env c (h a) dir qos) [
  | refuse rc ↦ (rc, c, h)
  | drop ↦ (2, record c { is_dropping = true }, h)
  | accept state rc ↦ admit env h c mid dir qos retain a state rc
]

-- _mosquitto_mid_generate of src/mqtt-core/lib/util_mosq.c: a uint16_t that leaves out 0.
unfoldable pub next_mid : ℕ → ℕ
next_mid last = let mid = (last + 1) % 65536 in if mid == 0 then mid + 1 else mid

unfoldable pub mid_generate : Context → ℕ × Context
unfolding next_mid
mid_generate c = (next_mid c.last_mid, record c { last_mid = next_mid c.last_mid })

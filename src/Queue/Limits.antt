-- ===== src/Queue/Limits.antt =====
-- The limits on the messages of a queue, and the message ids.
use opendxl_broker.Prelude.{
  ℕ, ◌+◌, ◌≤◌, ◌<◌, ◌≡◌, ◌≢◌, refl, Bool, true, [], ◌∷◌, ◌++◌, pos, arith, if_intro, ltb_ℤ-sub,
}
use opendxl_broker.Broker.Message.{
  Direction, md_in, md_out, MsgState, Qos, qos0, StoredMsg, ClientMsg, Heap, is_acked,
}
use opendxl_broker.Broker.Context.{Context, is_context_invalid, Env}
use opendxl_broker.Queue.Insert.{
  Verdict, refuse, drop, accept, append_msg, wake_bridge, admit, judge_offline, judge_online, judge,
  message_insert, next_mid,
}
use opendxl_broker.Queue.Balance.{count12}
use opendxl_broker.Queue.Balance.Insert.{count12-append}

-- What a verdict says of the number of counted messages.
abbrev HasRoom : Env → Context → Qos → Verdict → Type 0
HasRoom env c qos (accept s rc) =
    is_acked qos ≡ true → count12 c.msgs < env.max_inflight + env.max_queued
HasRoom env c qos v = Unit {0}

module _ (env : Env) (c : Context) (inflight : 0 < env.max_inflight) (queueing : 0 < env.max_queued)
    (counted : c.msg_count12 ≡ pos (count12 c.msgs)) where
  offline-HasRoom : (qos : Qos) → HasRoom env c qos (judge_offline env c qos)
  unfolding judge_offline
  offline-HasRoom qos = ground arith

  online-HasRoom :
      (s : StoredMsg) (dir : Direction) (qos : Qos)
      → HasRoom env c qos (judge_online env c s dir qos)
  unfolding judge_online
  online-HasRoom s md_out qos0 = ground arith
  online-HasRoom s md_out qos =
      ground (arith, ltb_ℤ-sub (count12 c.msgs) env.max_inflight env.max_queued)
  online-HasRoom s md_in qos =
      ground (arith, ltb_ℤ-sub (count12 c.msgs) env.max_inflight env.max_queued)

  judge-HasRoom :
      (s : StoredMsg) (dir : Direction) (qos : Qos) → HasRoom env c qos (judge env c s dir qos)
  unfolding judge
  judge-HasRoom s dir qos =
      if_intro (HasRoom env c qos) (is_context_invalid c) (judge_offline env c qos)
        (judge_online env c s dir qos) (λ _. offline-HasRoom qos) (λ _. online-HasRoom s dir qos)

  module _ (h : Heap) (mid : ℕ) (dir : Direction) (qos : Qos) (retain : Bool) (a : ℕ) where
    abbrev IsBounded : ℕ × Context × Heap → Type 0
    IsBounded res = count12 res.1.msgs ≤ env.max_inflight + env.max_queued

    append-le :
        (m : ClientMsg)
        → count12 c.msgs ≤ env.max_inflight + env.max_queued
        → (is_acked m.qos ≡ true → count12 c.msgs < env.max_inflight + env.max_queued)
        → count12 (c.msgs ++ m ∷ []) ≤ env.max_inflight + env.max_queued
    append-le m old room = ground (arith, count12-append c.msgs (m ∷ []))

    admit-IsBounded :
        (state : MsgState) (rc : ℕ)
        → count12 c.msgs ≤ env.max_inflight + env.max_queued
        → HasRoom env c qos (accept state rc)
        → IsBounded (admit env h c mid dir qos retain a state rc)
    unfolding admit append_msg wake_bridge
    admit-IsBounded state rc old room =
        if_intro IsBounded (env.on_insert_message c (h a)).success _ _ (λ _. append-le _ old room)
          (λ _. old)

    verdict-IsBounded :
        (v : Verdict)
        → count12 c.msgs ≤ env.max_inflight + env.max_queued
        → HasRoom env c qos v
        → judge env c (h a) dir qos ≡ v
        → IsBounded (message_insert env h c mid dir qos retain a)
    unfolding message_insert
    verdict-IsBounded (refuse rc) old room e = rw (e, message_insert) old
    verdict-IsBounded drop old room e = rw (e, message_insert) old
    verdict-IsBounded (accept state rc) old room e =
        rw (e, message_insert) (admit-IsBounded state rc old room)

    -- With both limits above 0, msg_count12 the number of the entries above quality of service
    -- 0, and these no more than the two limits together: they are still no more than that after
    -- mqtt3_db_message_insert of any message.
    pub count12-message_insert_le :
        count12 c.msgs ≤ env.max_inflight + env.max_queued
        → count12 (message_insert env h c mid dir qos retain a).1.msgs
          ≤ env.max_inflight + env.max_queued
    count12-message_insert_le old =
        verdict-IsBounded (judge env c (h a) dir qos) old (judge-HasRoom (h a) dir qos) refl

-- Behind a message id below 2^16, the next one is above 0, below 2^16, and another one.
pub next_mid_bounds :
    (last : ℕ)
    → last < 65536
    → (0 < next_mid last) × (next_mid last < 65536) × (next_mid last ≢ last)
unfolding next_mid
next_mid_bounds last h = ground arith

-- ===== src/Queue/Reset.antt =====
-- mqtt3_db_message_reconnect_reset and mqtt3_db_message_timeout_check of
-- src/mqtt-core/src/database.c.
use opendxl_broker.Prelude.{
  ℕ, ◌+◌, Bool, true, false, Option, none, some, List, [], ◌∷◌, ◌&&◌, ◌||◌, not, pos, inc, ltb,
  ◌==◌, if◌then◌else◌,
}
use opendxl_broker.Broker.Message.{
  MsgState, publish_qos1, publish_qos2, wait_for_puback, wait_for_pubrec, wait_for_pubrel,
  wait_for_pubcomp, resend_pubrel, send_pubrec, ms_invalid, Qos, qos2, is_acked, is_queued, is_out,
  ClientMsg, Heap,
}
use opendxl_broker.Broker.Context.{Context}
use opendxl_broker.Queue.Insert.{publish_state}
use opendxl_broker.Queue.Delete.{Tally, with_tally, message_remove}

abbrev pub is_qos2 : Qos → Bool
is_qos2 qos2 = true
is_qos2 _ = false

-- An outgoing message is sent again, or its PUBREL is.
abbrev pub retry_state : Qos → MsgState → MsgState
retry_state qos2 wait_for_pubcomp = resend_pubrel
retry_state qos s = publish_state qos

abbrev pub reset_msg : ClientMsg → ClientMsg
reset_msg m =
    if is_out m.direction && not (is_queued m.state)
    then record m { state = retry_state m.qos m.state }
    else m

abbrev pub count_msg : Tally → ClientMsg → Tally
count_msg t m = record t {
  msg_count = inc t.msg_count;
  msg_count12 = if is_acked m.qos then inc t.msg_count12 else t.msg_count12;
}

abbrev pub prepend : ClientMsg → Option (List ClientMsg × Tally) → Option (List ClientMsg × Tally)
prepend m none = none
prepend m (some (ms, t)) = some (m ∷ ms, t)

-- The first loop. `_message_remove` moves `msg` on to the next entry, and the end of the loop body
-- moves on from there: the entry behind a removed one is passed over, neither counted nor reset.
-- `none` is the end of the loop with such an entry: `last_msg`, which is set to each entry that is
-- visited, is then left at the one that was removed and freed. No queue has that state.
unfoldable pub reset_loop : Tally → List ClientMsg → Option (List ClientMsg × Tally)
unfolding message_remove
reset_loop t [] = some ([], t)
reset_loop t (m ∷ []) =
    if not (is_out m.direction) && not (is_qos2 m.qos)
    then some ([], message_remove (count_msg t m) m)
    else some (reset_msg m ∷ [], count_msg t m)
reset_loop t (m ∷ skipped ∷ []) =
    if not (is_out m.direction) && not (is_qos2 m.qos)
    then none
    else prepend (reset_msg m) (reset_loop (count_msg t m) (skipped ∷ []))
reset_loop t (m ∷ skipped ∷ n ∷ ms) =
    let after = reset_loop (message_remove (count_msg t m) m) (n ∷ ms) in
    let next = reset_loop (count_msg t m) (skipped ∷ n ∷ ms) in
    if not (is_out m.direction) && not (is_qos2 m.qos)
    then prepend skipped after
    else prepend (reset_msg m) next

-- The second loop: the first `max_inflight` messages that are queued may be sent.
unfoldable pub unqueue_loop : ℕ → ℕ → List ClientMsg → List ClientMsg
unqueue_loop max_inflight count [] = []
unqueue_loop max_inflight count (m ∷ ms) =
    let m' = (if is_queued m.state then record m { state = publish_state m.qos } else m) in
    let rest = unqueue_loop max_inflight (count + 1) ms in
    if (max_inflight == 0) || ltb count max_inflight then m' ∷ rest else m ∷ ms

-- `none` where the first loop leaves `last_msg` at a freed entry.
unfoldable pub reconnect_reset : ℕ → Heap → Context → Option (Context × Heap)
unfolding reset_loop unqueue_loop
reconnect_reset max_inflight h c =
    let zeroed : Tally = record { heap = h; msg_count = pos 0; msg_count12 = pos 0 } in
    elim (reset_loop zeroed c.msgs) [
      | none ↦ none
      | some (ms, t) ↦
          let (q, h') = with_tally (unqueue_loop max_inflight 0 ms) t in
          some (record c { queue = q; subscription_count = pos 0 }, h')
    ]

-- The state in which a message that was not answered is sent again.
abbrev pub timeout_state : MsgState → MsgState
timeout_state wait_for_puback = publish_qos1
timeout_state wait_for_pubrec = publish_qos2
timeout_state wait_for_pubrel = send_pubrec
timeout_state wait_for_pubcomp = resend_pubrel
timeout_state _ = ms_invalid

abbrev pub is_invalid : MsgState → Bool
is_invalid ms_invalid = true
is_invalid _ = false

-- `timestamp < mosquitto_time() - timeout`, with the timeout on the other side.
unfoldable pub timeout_msg : ℕ → ℕ → ClientMsg → ClientMsg
timeout_msg now timeout m =
    if ltb (m.timestamp + timeout) now
      && (not (is_queued m.state) && not (is_invalid (timeout_state m.state)))
    then record m { timestamp = now; state = timeout_state m.state; dup = true }
    else m

unfoldable pub message_timeout_check : ℕ → ℕ → List ClientMsg → List ClientMsg
unfolding timeout_msg
message_timeout_check now timeout [] = []
message_timeout_check now timeout (m ∷ ms) =
    timeout_msg now timeout m ∷ message_timeout_check now timeout ms

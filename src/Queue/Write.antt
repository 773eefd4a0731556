-- ===== src/Queue/Write.antt =====
-- mqtt3_db_message_write of src/mqtt-core/src/database.c. What the network layer returns for a
-- packet is a parameter: a function of the packets that this call has handed to it before.
use opendxl_broker.Prelude.{
  ℕ, zero, suc, ◌+◌, ◌*◌, Bool, true, Option, none, some, List, [], ◌∷◌, ◌++◌, ◌&&◌, ◌||◌, not, Str,
  ltb, length, ◌==◌, if◌then◌else◌,
}
use opendxl_broker.Broker.Message.{
  MsgState, publish_qos0, publish_qos1, publish_qos2, wait_for_puback, wait_for_pubrec,
  wait_for_pubrel, resend_pubrel, wait_for_pubcomp, resend_pubcomp, send_pubrec, Qos, is_queued,
  is_out, ClientMsg, Heap,
}
use opendxl_broker.Broker.Context.{Context, is_context_invalid}
use opendxl_broker.Queue.Delete.{Tally, tally, with_tally, message_remove}
use opendxl_broker.Queue.Reset.{is_qos2}

-- The calls of _mosquitto_send_publish, _pubrec, _pubrel and _pubcomp.
pub data Packet : Type 0 where
  publish : ℕ → Option Str → Option Str → Qos → Bool → Bool → Packet
  pubrec pubcomp : ℕ → Packet
  pubrel : ℕ → Bool → Packet

abbrev pub Network : Type 0
Network = List Packet → Packet → ℕ

pub record Output : Type 0 where
  pub counts : Tally
  pub sent : List Packet

-- `client_message ? store->msg.client_payload : store->msg.payload`
abbrev pub chosen_payload : Heap → ClientMsg → Option Str
chosen_payload h m =
    if m.client_message then (h m.store).client_payload else some (h m.store).payload

abbrev pub publish_packet : Heap → ClientMsg → Packet
publish_packet h m = publish m.mid (h m.store).topic (chosen_payload h m) m.qos m.retain m.dup

-- What the switch sends in a state; nothing in the others.
abbrev pub packet : Heap → ClientMsg → MsgState → Option Packet
packet h m publish_qos0 = some (publish_packet h m)
packet h m publish_qos1 = some (publish_packet h m)
packet h m publish_qos2 = some (publish_packet h m)
packet h m send_pubrec = some (pubrec m.mid)
packet h m resend_pubrel = some (pubrel m.mid true)
packet h m resend_pubcomp = some (pubcomp m.mid)
packet h m _ = none

-- What becomes of the entry when the packet was taken; a message of quality 0 is removed.
abbrev pub sent_msg : ℕ → ClientMsg → MsgState → Option ClientMsg
sent_msg now m publish_qos0 = none
sent_msg now m publish_qos1 =
    some (record m { timestamp = now; state = wait_for_puback; dup = true })
sent_msg now m publish_qos2 =
    some (record m { timestamp = now; state = wait_for_pubrec; dup = true })
sent_msg now m send_pubrec = some (record m { state = wait_for_pubrel })
sent_msg now m resend_pubrel = some (record m { state = wait_for_pubcomp })
sent_msg now m resend_pubcomp = some (record m { state = wait_for_pubrel })
sent_msg now m s = some m

-- One round of the loop: it returns, or it goes on with what the entry has become and the entries
-- that it is still to visit.
pub data Round : Type 0 where
  stop : ℕ → Output → Round
  go : List ClientMsg → Output → List ClientMsg → Round

-- `count` is the number of incoming messages that have been visited.
abbrev pub count_visit : ℕ → ClientMsg → ℕ
count_visit count m = if is_out m.direction then count else count + 1

-- What the loop leaves: the return code, the entries, and the counts with the packets.
abbrev pub Written : Type 0
Written = Option (ℕ × List ClientMsg × Output)

abbrev pub prepend : List ClientMsg → Written → Written
prepend kept none = none
prepend kept (some (rc, ms, o)) = some (rc, kept ++ ms, o)

-- The loop behind a round.
abbrev pub follow :
    (Output → List ClientMsg → Written) → ClientMsg → List ClientMsg → Round → Written
follow rest m ms (stop rc o) = some (rc, m ∷ ms, o)
follow rest m ms (go kept o todo) = prepend kept (rest o todo)

-- An entry is visited at most twice.
abbrev pub enough_fuel : List ClientMsg → ℕ
enough_fuel ms = 2 * length ms + 1

module _ (net : Network) (now max_inflight : ℕ) where
  -- The switch on the state.
  unfoldable pub visit : Output → ClientMsg → List ClientMsg → MsgState → Round
  unfolding message_remove
  visit o m ms state = elim (packet o.counts.heap m state) [
    | none ↦ go (m ∷ []) o ms
    | some p ↦
        let o' : Output = record o { sent = o.sent ++ p ∷ [] } in
        if net o.sent p == 0
        then elim (sent_msg now m state) [
          | none ↦ go [] (record o' { counts = message_remove o.counts m }) ms
          | some m' ↦ go (m' ∷ []) o' ms
        ]
        else stop (net o.sent p) o'
  ]

  -- A queued incoming message within the window is visited again, in its new state if it has one.
  unfoldable pub write_round : ℕ → Output → ClientMsg → List ClientMsg → Round
  unfolding visit
  write_round count o m ms =
      if is_queued m.state
      then if not (is_out m.direction) && ((max_inflight == 0) || ltb count max_inflight)
        then go [] o ((if is_qos2 m.qos then record m { state = send_pubrec } else m) ∷ ms)
        else go (m ∷ []) o ms
      else visit o m ms m.state

  -- The while loop on fuel; `none` means that the fuel ran out.
  unfoldable pub write_loop : ℕ → ℕ → Output → List ClientMsg → Written
  unfolding write_round
  write_loop zero count o ms = none
  write_loop (suc fuel) count o [] = some (0, [], o)
  write_loop (suc fuel) count o (m ∷ ms) =
      follow (write_loop fuel (count_visit count m)) m ms (write_round (count_visit count m) o m ms)

  abbrev pub written :
      Heap
      → Context
      → Option (ℕ × List ClientMsg × Output)
      → Option (ℕ × Context × Heap × List Packet)
  written h c none = none
  written h c (some (rc, ms, o)) =
      some (rc, record c { queue = (with_tally ms o.counts).0 }, o.counts.heap, o.sent)

  unfoldable pub message_write : Heap → Context → Option (ℕ × Context × Heap × List Packet)
  message_write h c =
      if is_context_invalid c
      then some (3, c, h, [])
      else written h c (
          write_loop (enough_fuel c.msgs) 0 (record { counts = tally h c.queue; sent = [] }) c.msgs)

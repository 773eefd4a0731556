-- ===== src/Queue/Balance/Calls.antt =====
-- Each call on a queue of entries that a reconnection keeps: the counters and the reference counts,
-- the references that it adds, and the entries that it leaves.
use opendxl_broker.Prelude.{
  ℕ, ◌+◌, ◌≡◌, Option, none, some, List, [], ◌∷◌, ◌||◌, true, All, ◌==◌, arith,
}
use opendxl_broker.Broker.Message.{is_out, ClientMsg, Heap}
use opendxl_broker.Broker.Context.{Context}
use opendxl_broker.Queue.Delete.{message_update, messages_delete}
use opendxl_broker.Queue.Write.{Packet, Network, message_write}
use opendxl_broker.Queue.Progress.{IsSendable, message_write_returns}
use opendxl_broker.Queue.Reset.{is_qos2}
use opendxl_broker.Queue.Shared.{
  Call, insert, delete, update, timeout_check, delete_all, reconnect, write, write_left, call,
}
use opendxl_broker.Queue.Balance.{IsBalanced, one, refs, IsKept}
use opendxl_broker.Queue.Balance.Insert.{message_insert-Balanced}
use opendxl_broker.Queue.Balance.Delete.{message_delete-Balanced}
use opendxl_broker.Queue.Balance.Reset.{
  SameWeights, SameWeights-IsKept, timeout_weights, update_weights, message_timeout_check-Balanced,
  message_update-Balanced, messages_delete-Balanced,
}
use opendxl_broker.Queue.Balance.Reconnect.{reconnect_reset_keeps}
use opendxl_broker.Queue.Balance.Write.{WriteBalanced, message_write-Balanced}
use opendxl_broker.Queue.Balance.Entries.{
  Within, refs-SameWeights, message_insert-Within, message_delete-Within,
}
use opendxl_broker.Queue.Balance.Entries.Sent.{message_write-Within, write_left-Within}

write_left-Balanced :
    (net : Network) (now max_inflight a r : ℕ) (h : Heap) (c : Context)
    (res : Option (ℕ × Context × Heap × List Packet))
    → IsBalanced a r (c.queue, h)
    → WriteBalanced net now max_inflight a r res
    → let (c', h') = write_left h c res in IsBalanced a r (c'.queue, h')
write_left-Balanced net now max_inflight a r h c none b w = b
write_left-Balanced net now max_inflight a r h c (some (rc, c', h', sent)) b w = w

pub call-Balanced :
    (f : Call) (a r : ℕ) (h : Heap) (c : Context)
    → All IsKept c.msgs
    → IsBalanced a r (c.queue, h)
    → let (c', h') = call f h c in IsBalanced a r (c'.queue, h')
call-Balanced (insert env mid dir qos retain b) a r h c ks v =
    message_insert-Balanced env a r h c mid dir qos retain b v
call-Balanced (delete now max_inflight mid dir) a r h c ks v =
    message_delete-Balanced now max_inflight mid dir a r h c.queue v
call-Balanced (update now mid dir state) a r h c ks v =
    message_update-Balanced now mid dir state a r h c.queue v
call-Balanced (timeout_check now timeout) a r h c ks v =
    message_timeout_check-Balanced now timeout a r h c.queue v
call-Balanced delete_all a r h c ks v = messages_delete-Balanced a r h c v
call-Balanced (reconnect max_inflight) a r h c ks v =
    let (c', h', e, b, w) = reconnect_reset_keeps max_inflight a r h c ks v in rw e b
call-Balanced (write net now max_inflight) a r h c ks v =
    write_left-Balanced net now max_inflight a r h c _ v
      (message_write-Balanced net now max_inflight a r h c v)

abbrev pub added : Call → ℕ → ℕ
added (insert env mid dir qos retain b) a = one (b == a)
added _ a = 0

-- An incoming message that is inserted has quality of service 2.
abbrev pub IsProper : Call → Type 0
IsProper (insert env mid dir qos retain b) = (is_out dir || is_qos2 qos) ≡ true
IsProper _ = Unit {0}

abbrev CallWithin : Call → ℕ → Context → List ClientMsg → Type 0
CallWithin f a c ns = Within a (added f a + refs a c.msgs) ns

same-Within :
    (f : Call) (a : ℕ) (c : Context) (ns : List ClientMsg)
    → SameWeights c.msgs ns
    → All IsKept c.msgs
    → CallWithin f a c ns
same-Within f a c ns w ks =
    (omega (arith, refs-SameWeights a c.msgs ns w), SameWeights-IsKept c.msgs ns w ks)

fewer-Within :
    (f : Call) (a : ℕ) (c : Context) (ns : List ClientMsg)
    → Within a (refs a c.msgs) ns
    → CallWithin f a c ns
fewer-Within f a c ns (l, ks) = (omega (arith, l), ks)

-- A call leaves entries that a reconnection keeps, and adds at most the reference of an insertion.
pub call-Within :
    (f : Call) (a r : ℕ) (h : Heap) (c : Context)
    → IsProper f
    → All IsKept c.msgs
    → IsBalanced a r (c.queue, h)
    → CallWithin f a c (call f h c).0.msgs
unfolding message_update messages_delete
call-Within (insert env mid dir qos retain b) a r h c new ks v =
    message_insert-Within a env h c mid dir qos retain b ks new
call-Within (delete now max_inflight mid dir) a r h c new ks v =
    fewer-Within (delete now max_inflight mid dir) a c _
      (message_delete-Within a now max_inflight mid dir h c ks)
call-Within (update now mid dir state) a r h c new ks v =
    same-Within (update now mid dir state) a c _ (update_weights now mid dir state c.msgs) ks
call-Within (timeout_check now timeout) a r h c new ks v =
    same-Within (timeout_check now timeout) a c _ (timeout_weights now timeout c.msgs) ks
call-Within delete_all a r h c new ks v = (omega arith, tt)
call-Within (reconnect max_inflight) a r h c new ks v =
    let (c', h', e, b, w) = reconnect_reset_keeps max_inflight a r h c ks v in
    rw e (same-Within (reconnect max_inflight) a c c'.msgs w ks)
call-Within (write net now max_inflight) a r h c new ks v =
    fewer-Within (write net now max_inflight) a c _ (
      write_left-Within a net now max_inflight h c (message_write net now max_inflight h c) ks
        (message_write-Within a net now max_inflight h c ks))

-- Sending and the reset return.
pub write_returns :
    (net : Network) (now max_inflight : ℕ) (h : Heap) (c : Context)
    → All IsKept c.msgs
    → (res : ℕ × Context × Heap × List Packet) × (message_write net now max_inflight h c ≡ some res)
write_returns net now max_inflight h c ks =
    message_write_returns net now max_inflight h c (sendable c.msgs ks)
  where
    sendable : (ms : List ClientMsg) → All IsKept ms → All IsSendable ms
    sendable [] ks = tt
    sendable (m ∷ ms) (k, ks) = (ground (arith, k), sendable ms ks)

-- ===== src/Queue/Balance/Reconnect.antt =====
-- The reset of a queue on a reconnection, against the counters: where they are right again.
use opendxl_broker.Prelude.{
  ℕ, suc, ◌+◌, ◌≡◌, refl, false, Option, some, List, [], ◌∷◌, ◌&&◌, not, pos, All, arith,
}
use opendxl_broker.Broker.Message.{ClientMsg, Heap, is_out}
use opendxl_broker.Broker.Context.{Context}
use opendxl_broker.Queue.Delete.{Tally, with_tally}
use opendxl_broker.Queue.Reset.{
  is_qos2, prepend, reset_msg, count_msg, reset_loop, unqueue_loop, reconnect_reset,
}
use opendxl_broker.Queue.Balance.{
  Balanced, IsBalanced, SameWeight, IsKept, Balanced-cons, k12+, r+, refs,
}
use opendxl_broker.Queue.Balance.Reset.{
  SameWeights, SameWeights-trans, SameWeights-Balanced, unqueue_weights,
}

-- The counters as they are before the loop meets the rest `ms` of the queue.
record Counting (k k12 a r : ℕ) (t : Tally) (ms : List ClientMsg) : Type 0 where
  counted : t.msg_count ≡ pos k
  counted12 : t.msg_count12 ≡ pos k12
  referenced : (t.heap a).ref_count ≡ pos (r + refs a ms)

Counting-count :
    (k k12 a r : ℕ) (t : Tally) (m : ClientMsg) (ms : List ClientMsg)
    → Counting k k12 a r t (m ∷ ms)
    → Counting (suc k) (k12+ m k12) a (r+ a m r) (count_msg t m) ms
Counting-count k k12 a r t m ms c = record {
  counted = ground (arith, c.counted);
  counted12 = ground (arith, c.counted12);
  referenced = ground (arith, c.referenced);
}

Counting-end : (k k12 a r : ℕ) (t : Tally) → Counting k k12 a r t [] → Balanced k k12 a r t []
Counting-end k k12 a r t c = record {
  counted = ground (arith, c.counted);
  counted12 = ground (arith, c.counted12);
  referenced = ground (arith, c.referenced);
}

reset-SameWeight : (m : ClientMsg) → SameWeight m (reset_msg m)
reset-SameWeight m = ground arith

IsKept-test : (m : ClientMsg) → IsKept m → (not (is_out m.direction) && not (is_qos2 m.qos)) ≡ false
IsKept-test m h = ground arith

-- The first loop keeps every entry of `ms`, in balance.
LoopResult : (k k12 a r : ℕ) → List ClientMsg → Option (List ClientMsg × Tally) → Type 0
LoopResult k k12 a r ms res =
    (ns : List ClientMsg) × (t : Tally) × (res ≡ some (ns, t))
    × Balanced k k12 a r t ns
    × SameWeights ms ns

module _ (k k12 a r : ℕ) (t : Tally) (m : ClientMsg) (ms : List ClientMsg) where
  prepend-Balanced :
      (res : Option (List ClientMsg × Tally))
      → LoopResult (suc k) (k12+ m k12) a (r+ a m r) ms res
      → LoopResult k k12 a r (m ∷ ms) (prepend (reset_msg m) res)
  unfolding LoopResult
  prepend-Balanced res (ns, u, e, b, w) = (
    reset_msg m ∷ ns,
    u,
    rw e,
    Balanced-cons k k12 a r u m ns (reset_msg m) (reset-SameWeight m) b,
    (reset-SameWeight m, w),
  )

reset_loop-Balanced :
    (k k12 a r : ℕ) (t : Tally) (ms : List ClientMsg)
    → All IsKept ms
    → Counting k k12 a r t ms
    → LoopResult k k12 a r ms (reset_loop t ms)
unfolding reset_loop LoopResult
reset_loop-Balanced k k12 a r t [] h c = ([], t, refl, Counting-end k k12 a r t c, tt)
reset_loop-Balanced k k12 a r t (m ∷ []) h c = rw (IsKept-test m h.0) (
    prepend-Balanced k k12 a r t m [] (some ([], count_msg t m))
      ([], _, refl, Counting-end _ _ a _ _ (Counting-count k k12 a r t m [] c), tt))
reset_loop-Balanced k k12 a r t (m ∷ n ∷ []) h c = rw (IsKept-test m h.0) (
    prepend-Balanced k k12 a r t m (n ∷ []) (reset_loop (count_msg t m) (n ∷ [])) (
      reset_loop-Balanced (suc k) (k12+ m k12) a (r+ a m r) (count_msg t m) (n ∷ []) h.1
        (Counting-count k k12 a r t m (n ∷ []) c)))
reset_loop-Balanced k k12 a r t (m ∷ n ∷ p ∷ ms) h c = rw (IsKept-test m h.0) (
    prepend-Balanced k k12 a r t m (n ∷ p ∷ ms) (reset_loop (count_msg t m) (n ∷ p ∷ ms)) (
      reset_loop-Balanced (suc k) (k12+ m k12) a (r+ a m r) (count_msg t m) (n ∷ p ∷ ms) h.1
        (Counting-count k k12 a r t m (n ∷ p ∷ ms) c)))

-- The reset of a queue without other entries keeps them all.
pub reconnect_reset_keeps :
    (max_inflight a r : ℕ) (h : Heap) (c : Context)
    → All IsKept c.msgs
    → IsBalanced a r (c.queue, h)
    → (c' : Context) × (h' : Heap) × (reconnect_reset max_inflight h c ≡ some (c', h'))
      × IsBalanced a r (c'.queue, h')
      × SameWeights c.msgs c'.msgs
unfolding reconnect_reset LoopResult
reconnect_reset_keeps max_inflight a r h c kept b =
    let zeroed : Tally = record { heap = h; msg_count = pos 0; msg_count12 = pos 0 } in
    let (ms, t, e, loop, w) =
      reset_loop-Balanced 0 0 a r zeroed c.msgs kept
        (record { counted = refl; counted12 = refl; referenced = b.referenced }) in
    (
      record c {
        queue = (with_tally (unqueue_loop max_inflight 0 ms) t).0;
        subscription_count = pos 0;
      },
      t.heap,
      rw (e, reconnect_reset),
      SameWeights-Balanced 0 0 a r t ms _ (unqueue_weights max_inflight 0 ms) loop,
      SameWeights-trans c.msgs ms _ w (unqueue_weights max_inflight 0 ms),
    )

-- For a queue without incoming entries below quality of service 2, where the counter msg_count is
-- the number of entries, msg_count12 the number of those above quality of service 0, and the
-- reference count of the stored message `a` the number of references to it, of which `r` stand
-- outside the queue: mqtt3_db_message_reconnect_reset leaves `last_msg` at the last entry, and this
-- also holds after it.
pub reconnect_reset-Balanced :
    (max_inflight a r : ℕ) (h : Heap) (c : Context)
    → All IsKept c.msgs
    → IsBalanced a r (c.queue, h)
    → (c' : Context) × (h' : Heap) × (reconnect_reset max_inflight h c ≡ some (c', h'))
      × IsBalanced a r (c'.queue, h')
reconnect_reset-Balanced max_inflight a r h c kept b =
    let (c', h', e, b', w) = reconnect_reset_keeps max_inflight a r h c kept b in (c', h', e, b')

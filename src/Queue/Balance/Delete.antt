-- ===== src/Queue/Balance/Delete.antt =====
-- Deletion, update and release keep the counters of a queue and the reference counts right.
use opendxl_broker.Prelude.{
  ℕ, suc, ◌+◌, Bool, true, false, List, [], ◌∷◌, ◌&&◌, ltb, arith, if_intro,
}
use opendxl_broker.Broker.Message.{Direction, ClientMsg, Heap}
use opendxl_broker.Broker.Context.{Queue}
use opendxl_broker.Queue.Delete.{
  Tally, tally, message_remove, is_message, wake, delete_loop, message_delete,
}
use opendxl_broker.Queue.Balance.{
  Balanced, BalancedResult, IsBalanced, SameWeight, message_remove-Balanced, Balanced-tail,
  Balanced-cons, Balanced-replace, k12+, r+,
}

pub wake-SameWeight :
    (now max_inflight index : ℕ) (m : ClientMsg) → SameWeight m (wake now max_inflight index m)
unfolding wake
wake-SameWeight now max_inflight index m = ground arith

module _ (now max_inflight mid : ℕ) (dir : Direction) (a : ℕ) where
  delete_loop-Balanced :
      (k k12 r : ℕ) (t : Tally) (index : ℕ) (deleted : Bool) (ms : List ClientMsg)
      → Balanced k k12 a r t ms
      → let res = delete_loop now max_inflight mid dir t index deleted ms in
        Balanced k k12 a r res.1 res.0
  unfolding delete_loop
  delete_loop-Balanced k k12 r t index deleted [] b = b
  delete_loop-Balanced k k12 r t index deleted (m ∷ ms) b =
      if_intro (BalancedResult k k12 a r) (is_message mid dir m') _ _
        (λ _.
          if_intro (BalancedResult k k12 a r) (ltb max_inflight index) _ _ (λ _. gone)
            (λ _. delete_loop-Balanced k k12 r (message_remove t m') index true ms gone))
        (λ _.
          if_intro (BalancedResult k k12 a r) (ltb max_inflight (index + 1) && deleted) _ _
            (λ _. stays)
            (λ _. Balanced-cons k k12 a r _ m _ m' same (
              delete_loop-Balanced (suc k) (k12+ m k12) (r+ a m r) t (index + 1) deleted ms
                (Balanced-tail k k12 a r t m ms b))))
    where
      m' : ClientMsg
      m' = wake now max_inflight (index + 1) m

      same : SameWeight m m'
      same = wake-SameWeight now max_inflight (index + 1) m

      stays : Balanced k k12 a r t (m' ∷ ms)
      stays = Balanced-replace k k12 a r t m ms m' same b

      gone : Balanced k k12 a r (message_remove t m') ms
      gone = message_remove-Balanced k k12 a r t m' ms stays

  -- Where the counter msg_count is the number of entries, msg_count12 the number of those above
  -- quality of service 0, and the reference count of the stored message `a` the number of
  -- references to it, of which `r` stand outside the queue: this also holds after
  -- mqtt3_db_message_delete, for any message id and direction and any window.
  pub message_delete-Balanced :
      (r : ℕ) (h : Heap) (q : Queue)
      → IsBalanced a r (q, h)
      → IsBalanced a r (message_delete now max_inflight h q mid dir)
  unfolding message_delete
  message_delete-Balanced r h q b = delete_loop-Balanced 0 0 r (tally h q) 0 false q.msgs b

-- ===== src/Queue/Balance/Reset.antt =====
-- Updates, timeouts, the reset on a reconnection and the deletion of a whole queue, against the
-- counters.
use opendxl_broker.Prelude.{
  ℕ, suc, ◌+◌, ◌≡◌, refl, List, [], ◌∷◌, ◌||◌, pos, All, ltb, ◌==◌, arith, if_intro, ap, ◌∙◌,
}
use opendxl_broker.Broker.Message.{Direction, MsgState, ClientMsg, Heap, unref}
use opendxl_broker.Broker.Context.{Queue, Context}
use opendxl_broker.Queue.Delete.{
  Tally, tally, is_message, update_loop, message_update, release_all, messages_delete,
}
use opendxl_broker.Queue.Reset.{unqueue_loop, message_timeout_check}
use opendxl_broker.Queue.Balance.{
  Balanced, IsBalanced, SameWeight, Balanced-tail, Balanced-cons, k12+, r+, refs, IsKept,
  SameWeight-IsKept,
}

-- Two lists with the same quality of service and stored message at each place.
abbrev pub SameWeights : List ClientMsg → List ClientMsg → Type 0
SameWeights [] [] = Unit {0}
SameWeights (m ∷ ms) (n ∷ ns) = SameWeight m n × SameWeights ms ns
SameWeights _ _ = ⊥

SameWeight-refl : (m : ClientMsg) → SameWeight m m
SameWeight-refl m = record { same_qos = refl; same_store = refl; same_direction = refl }

SameWeights-refl : (ms : List ClientMsg) → SameWeights ms ms
SameWeights-refl [] = tt
SameWeights-refl (m ∷ ms) = (SameWeight-refl m, SameWeights-refl ms)

pub SameWeights-trans :
    (ls ms ns : List ClientMsg) → SameWeights ls ms → SameWeights ms ns → SameWeights ls ns
SameWeights-trans [] [] ns v w = w
SameWeights-trans [] (m ∷ ms) ns v w = absurd v
SameWeights-trans (l ∷ ls) [] ns v w = absurd v
SameWeights-trans (l ∷ ls) (m ∷ ms) [] v w = absurd w
SameWeights-trans (l ∷ ls) (m ∷ ms) (n ∷ ns) v w = (
  record {
    same_qos = w.0.same_qos ∙ v.0.same_qos;
    same_store = w.0.same_store ∙ v.0.same_store;
    same_direction = w.0.same_direction ∙ v.0.same_direction;
  },
  SameWeights-trans ls ms ns v.1 w.1,
)

pub SameWeights-IsKept :
    (ms ns : List ClientMsg) → SameWeights ms ns → All IsKept ms → All IsKept ns
SameWeights-IsKept [] [] w k = tt
SameWeights-IsKept [] (n ∷ ns) w k = absurd w
SameWeights-IsKept (m ∷ ms) [] w k = absurd w
SameWeights-IsKept (m ∷ ms) (n ∷ ns) w k =
    (SameWeight-IsKept m n w.0 k.0, SameWeights-IsKept ms ns w.1 k.1)

pub SameWeights-Balanced :
    (k k12 a r : ℕ) (t : Tally) (ms ns : List ClientMsg)
    → SameWeights ms ns
    → Balanced k k12 a r t ms
    → Balanced k k12 a r t ns
SameWeights-Balanced k k12 a r t [] [] w b = b
SameWeights-Balanced k k12 a r t [] (n ∷ ns) w b = absurd w
SameWeights-Balanced k k12 a r t (m ∷ ms) [] w b = absurd w
SameWeights-Balanced k k12 a r t (m ∷ ms) (n ∷ ns) w b = Balanced-cons k k12 a r t m ns n w.0 (
    SameWeights-Balanced (suc k) (k12+ m k12) a (r+ a m r) t ms ns w.1
      (Balanced-tail k k12 a r t m ms b))

pub timeout_weights :
    (now timeout : ℕ) (ms : List ClientMsg) → SameWeights ms (message_timeout_check now timeout ms)
unfolding message_timeout_check
timeout_weights now timeout [] = tt
timeout_weights now timeout (m ∷ ms) = (ground arith, timeout_weights now timeout ms)

pub update_weights :
    (now mid : ℕ) (dir : Direction) (state : MsgState) (ms : List ClientMsg)
    → SameWeights ms (update_loop now mid dir state ms).1
unfolding update_loop
update_weights now mid dir state [] = tt
update_weights now mid dir state (m ∷ ms) =
    if_intro (λ (res : ℕ × List ClientMsg). SameWeights (m ∷ ms) res.1) (is_message mid dir m) _ _
      (λ _.
        (record { same_qos = refl; same_store = refl; same_direction = refl }, SameWeights-refl ms))
      (λ _. (SameWeight-refl m, update_weights now mid dir state ms))

pub unqueue_weights :
    (max_inflight count : ℕ) (ms : List ClientMsg)
    → SameWeights ms (unqueue_loop max_inflight count ms)
unfolding unqueue_loop
unqueue_weights max_inflight count [] = tt
unqueue_weights max_inflight count (m ∷ ms) =
    if_intro (λ (res : List ClientMsg). SameWeights (m ∷ ms) res)
      ((max_inflight == 0) || ltb count max_inflight) _ _
      (λ _. (ground arith, unqueue_weights max_inflight (count + 1) ms))
      (λ _. SameWeights-refl (m ∷ ms))

pub message_timeout_check-Balanced :
    (now timeout a r : ℕ) (h : Heap) (q : Queue)
    → IsBalanced a r (q, h)
    → IsBalanced a r (record q { msgs = message_timeout_check now timeout q.msgs }, h)
message_timeout_check-Balanced now timeout a r h q b =
    SameWeights-Balanced 0 0 a r (tally h q) q.msgs _ (timeout_weights now timeout q.msgs) b

pub message_update-Balanced :
    (now mid : ℕ) (dir : Direction) (state : MsgState) (a r : ℕ) (h : Heap) (q : Queue)
    → IsBalanced a r (q, h)
    → IsBalanced a r ((message_update now q mid dir state).1, h)
unfolding message_update
message_update-Balanced now mid dir state a r h q b =
    SameWeights-Balanced 0 0 a r (tally h q) q.msgs _ (update_weights now mid dir state q.msgs) b

release_all-refs :
    (a r : ℕ) (h : Heap) (ms : List ClientMsg)
    → (h a).ref_count ≡ pos (r + refs a ms)
    → (release_all h ms a).ref_count ≡ pos r
unfolding release_all
release_all-refs a r h [] e = ground arith
release_all-refs a r h (m ∷ ms) e = release_all-refs a r (unref h m.store) ms (ground arith)

pub messages_delete-Balanced :
    (a r : ℕ) (h : Heap) (c : Context)
    → IsBalanced a r (c.queue, h)
    → let (c', h') = messages_delete h c in IsBalanced a r (c'.queue, h')
unfolding messages_delete
messages_delete-Balanced a r h c b = record {
  counted = refl;
  counted12 = refl;
  referenced = release_all-refs a r h c.msgs b.referenced ∙ ap pos (omega arith);
}

-- Where the counter msg_count is the number of entries, msg_count12 the number of those above
-- quality of service 0, and the reference count of the stored message `a` the number of references
-- to it, of which `r` stand outside the queue: this also holds after mqtt3_db_message_timeout_check
-- at any time and timeout, after mqtt3_db_message_update to any state, and after
-- mqtt3_db_messages_delete, which empties the queue.
pub resets-Balanced :
    (now timeout mid : ℕ) (dir : Direction) (state : MsgState) (a r : ℕ) (h : Heap) (c : Context)
    → IsBalanced a r (c.queue, h)
    → IsBalanced a r (record c.queue { msgs = message_timeout_check now timeout c.queue.msgs }, h)
      × IsBalanced a r ((message_update now c.queue mid dir state).1, h)
      × (let (c', h') = messages_delete h c in IsBalanced a r (c'.queue, h'))
resets-Balanced now timeout mid dir state a r h c b = (
  message_timeout_check-Balanced now timeout a r h c.queue b,
  message_update-Balanced now mid dir state a r h c.queue b,
  messages_delete-Balanced a r h c b,
)

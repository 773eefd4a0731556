-- ===== src/Queue/Balance/Write.antt =====
-- Sending keeps the counters of a queue and the reference counts right, and comes to an end.
use opendxl_broker.Prelude.{
  ℕ, zero, suc, refl, Bool, true, false, Option, none, some, List, [], ◌∷◌, ◌&&◌, ◌||◌, not, ltb,
  ◌==◌, if◌then◌else◌, arith, if_intro,
}
use opendxl_broker.Broker.Message.{
  MsgState, publish_qos0, publish_qos1, publish_qos2, send_pubrec, resend_pubrel, resend_pubcomp,
  ClientMsg, Heap, is_queued, is_out,
}
use opendxl_broker.Broker.Context.{Context, is_context_invalid}
use opendxl_broker.Queue.Delete.{tally, message_remove}
use opendxl_broker.Queue.Write.{
  Packet, Network, Output, Round, stop, go, visit, write_round, count_visit, prepend, follow,
  Written, write_loop, enough_fuel, written, message_write,
}
use opendxl_broker.Queue.Balance.{
  Balanced, IsBalanced, SameWeight, message_remove-Balanced, Balanced-tail, Balanced-cons,
  Balanced-replace, k12+, r+,
}

-- After a round: the entries that are kept go in front of those to come.
abbrev RoundBalanced : (k k12 a r : ℕ) → ClientMsg → List ClientMsg → Round → Type 0
RoundBalanced k k12 a r m ms (stop rc o) = Balanced k k12 a r o.counts (m ∷ ms)
RoundBalanced k k12 a r m ms (go [] o rest) = Balanced k k12 a r o.counts rest
RoundBalanced k k12 a r m ms (go (n ∷ []) o rest) =
    SameWeight m n × Balanced (suc k) (k12+ m k12) a (r+ a m r) o.counts rest
RoundBalanced k k12 a r m ms (go (n ∷ p ∷ ns) o rest) = ⊥

module _ (net : Network) (now max_inflight k k12 a r : ℕ) (o : Output) (m : ClientMsg)
    (ms : List ClientMsg) (b : Balanced k k12 a r o.counts (m ∷ ms)) where
  abbrev P : Round → Type 0
  P = RoundBalanced k k12 a r m ms

  tail : Balanced (suc k) (k12+ m k12) a (r+ a m r) o.counts ms
  tail = Balanced-tail k k12 a r o.counts m ms b

  -- The network layer takes the packet and the entry becomes `m'`, or the loop stops.
  sent-Balanced :
      (took : Bool) (rc : ℕ) (sent : List Packet) (m' : ClientMsg)
      → SameWeight m m'
      → P (
          if took
          then go (m' ∷ []) (record o { sent = sent }) ms
          else stop rc (record o { sent = sent }))
  sent-Balanced true rc sent m' w = (w, tail)
  sent-Balanced false rc sent m' w = b

  removed-Balanced :
      (took : Bool) (rc : ℕ) (sent : List Packet)
      → P (
          if took
          then go [] (record { counts = message_remove o.counts m; sent = sent }) ms
          else stop rc (record o { sent = sent }))
  removed-Balanced true rc sent = message_remove-Balanced k k12 a r o.counts m ms b
  removed-Balanced false rc sent = b

  visit-Balanced : (s : MsgState) → P (visit net now max_inflight o m ms s)
  unfolding visit
  visit-Balanced publish_qos0 = removed-Balanced _ _ _
  visit-Balanced publish_qos1 =
      sent-Balanced _ _ _ _ (record { same_qos = refl; same_store = refl; same_direction = refl })
  visit-Balanced publish_qos2 =
      sent-Balanced _ _ _ _ (record { same_qos = refl; same_store = refl; same_direction = refl })
  visit-Balanced send_pubrec =
      sent-Balanced _ _ _ _ (record { same_qos = refl; same_store = refl; same_direction = refl })
  visit-Balanced resend_pubrel =
      sent-Balanced _ _ _ _ (record { same_qos = refl; same_store = refl; same_direction = refl })
  visit-Balanced resend_pubcomp =
      sent-Balanced _ _ _ _ (record { same_qos = refl; same_store = refl; same_direction = refl })
  visit-Balanced _ = (record { same_qos = refl; same_store = refl; same_direction = refl }, tail)

  round-Balanced : (count : ℕ) → P (write_round net now max_inflight count o m ms)
  unfolding write_round
  round-Balanced count =
      if_intro P (is_queued m.state) _ _
        (λ _.
          if_intro P (not (is_out m.direction) && ((max_inflight == 0) || ltb count max_inflight)) _
            _ (λ _. Balanced-replace k k12 a r o.counts m ms _ (ground arith) b)
            (λ _. (record { same_qos = refl; same_store = refl; same_direction = refl }, tail)))
        (λ _. visit-Balanced m.state)

-- Of the result of the loop, if there is one.
abbrev LoopBalanced : (k k12 a r : ℕ) → Written → Type 0
LoopBalanced k k12 a r none = Unit {0}
LoopBalanced k k12 a r (some (rc, ms, o)) = Balanced k k12 a r o.counts ms

prepend-Balanced :
    (k k12 a r : ℕ) (m n : ClientMsg) (res : Written)
    → SameWeight m n
    → LoopBalanced (suc k) (k12+ m k12) a (r+ a m r) res
    → LoopBalanced k k12 a r (prepend (n ∷ []) res)
prepend-Balanced k k12 a r m n none w b = tt
prepend-Balanced k k12 a r m n (some (rc, ms, o)) w b = Balanced-cons k k12 a r o.counts m ms n w b

prepend_nil-Balanced :
    (k k12 a r : ℕ) (res : Written)
    → LoopBalanced k k12 a r res
    → LoopBalanced k k12 a r (prepend [] res)
prepend_nil-Balanced k k12 a r none b = tt
prepend_nil-Balanced k k12 a r (some (rc, ms, o)) b = b

follow-Balanced :
    (rest : Output → List ClientMsg → Written) (k k12 a r : ℕ) (m : ClientMsg) (ms : List ClientMsg)
    → ((k k12 r : ℕ) (o : Output) (todo : List ClientMsg)
        → Balanced k k12 a r o.counts todo
        → LoopBalanced k k12 a r (rest o todo))
    → (rnd : Round) → RoundBalanced k k12 a r m ms rnd
    → LoopBalanced k k12 a r (follow rest m ms rnd)
follow-Balanced rest k k12 a r m ms ih (stop rc o) p = p
follow-Balanced rest k k12 a r m ms ih (go [] o todo) p =
    prepend_nil-Balanced k k12 a r (rest o todo) (ih k k12 r o todo p)
follow-Balanced rest k k12 a r m ms ih (go (n ∷ []) o todo) p =
    prepend-Balanced k k12 a r m n (rest o todo) p.0 (ih (suc k) (k12+ m k12) (r+ a m r) o todo p.1)
follow-Balanced rest k k12 a r m ms ih (go (n ∷ n' ∷ ns) o todo) p = absurd p

module _ (net : Network) (now max_inflight a : ℕ) where
  loop-Balanced :
      (fuel count k k12 r : ℕ) (o : Output) (ms : List ClientMsg)
      → Balanced k k12 a r o.counts ms
      → LoopBalanced k k12 a r (write_loop net now max_inflight fuel count o ms)
  unfolding write_loop
  loop-Balanced zero count k k12 r o ms b = tt
  loop-Balanced (suc fuel) count k k12 r o [] b = b
  loop-Balanced (suc fuel) count k k12 r o (m ∷ ms) b =
      follow-Balanced _ k k12 a r m ms (loop-Balanced fuel (count_visit count m)) _
        (round-Balanced net now max_inflight k k12 a r o m ms b (count_visit count m))

  abbrev pub WriteBalanced : ℕ → Option (ℕ × Context × Heap × List Packet) → Type 0
  WriteBalanced r none = Unit {0}
  WriteBalanced r (some (rc, c, h, sent)) = IsBalanced a r (c.queue, h)

  written-Balanced :
      (r : ℕ) (h : Heap) (c : Context) (res : Written)
      → LoopBalanced 0 0 a r res
      → WriteBalanced r (written net now max_inflight h c res)
  written-Balanced r h c none b = tt
  written-Balanced r h c (some (rc, ms, o)) b = b

  pub message_write-Balanced :
      (r : ℕ) (h : Heap) (c : Context)
      → IsBalanced a r (c.queue, h)
      → WriteBalanced r (message_write net now max_inflight h c)
  unfolding message_write
  message_write-Balanced r h c b =
      if_intro (WriteBalanced r) (is_context_invalid c) _ _ (λ _. b)
        (λ _.
          written-Balanced r h c
            (write_loop net now max_inflight (enough_fuel c.msgs) 0 start c.msgs)
            (loop-Balanced (enough_fuel c.msgs) 0 0 0 r start c.msgs b))
    where
      start : Output
      start = record { counts = tally h c.queue; sent = [] }

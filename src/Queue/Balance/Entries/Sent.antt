-- ===== src/Queue/Balance/Entries/Sent.antt =====
-- mqtt3_db_message_write on a queue of entries that a reconnection keeps leaves such a queue, and
-- adds no reference to a stored message.
use opendxl_broker.Prelude.{
  ℕ, zero, suc, ◌+◌, ◌≤◌, All, true, false, Bool, Option, none, some, List, [], ◌∷◌, ◌&&◌, ◌||◌,
  not, ltb, ◌==◌, arith, if_intro, if◌then◌else◌,
}
use opendxl_broker.Broker.Message.{
  MsgState, publish_qos0, publish_qos1, publish_qos2, send_pubrec, resend_pubrel, resend_pubcomp,
  ClientMsg, Heap, is_queued, is_out,
}
use opendxl_broker.Broker.Context.{Context, is_context_invalid}
use opendxl_broker.Queue.Delete.{tally}
use opendxl_broker.Queue.Write.{
  Network, Packet, Output, Round, stop, go, visit, write_round, count_visit, prepend, follow,
  Written, write_loop, enough_fuel, written, message_write,
}
use opendxl_broker.Queue.Shared.{write_left}
use opendxl_broker.Queue.Balance.{refs, SameWeight, IsKept, SameWeight-IsKept}
use opendxl_broker.Queue.Balance.Insert.{refs-append}
use opendxl_broker.Queue.Reset.{is_qos2}
use opendxl_broker.Queue.Balance.Entries.{append-IsKept, Within}

module _ (a : ℕ) where
  module _ (net : Network) (now max_inflight : ℕ) where
    -- After a round, what is kept and what is still to be visited.
    abbrev RoundWithin : ℕ → Round → Type 0
    RoundWithin n (stop rc o) = Unit {0}
    RoundWithin n (go kept o todo) =
        (refs a kept + refs a todo ≤ n) × All IsKept kept × All IsKept todo

    abbrev WrittenWithin : ℕ → Written → Type 0
    WrittenWithin n none = Unit {0}
    WrittenWithin n (some (rc, ms, o)) = Within a n ms

    module _ (o : Output) (m : ClientMsg) (ms : List ClientMsg) (k : IsKept m)
        (ks : All IsKept ms) where
      abbrev R : Round → Type 0
      R = RoundWithin (refs a (m ∷ ms))

      taken :
          (took : Bool) (rc : ℕ) (m' : ClientMsg) (o' o'' : Output)
          → SameWeight m m'
          → R (if took then go (m' ∷ []) o' ms else stop rc o'')
      taken true rc m' o' o'' w =
          (rw (w.same_store) (omega arith), (SameWeight-IsKept m m' w k, tt), ks)
      taken false rc m' o' o'' w = tt

      removed :
          (took : Bool) (rc : ℕ) (o' o'' : Output) → R (if took then go [] o' ms else stop rc o'')
      removed true rc o' o'' = (omega arith, tt, ks)
      removed false rc o' o'' = tt

      untouched : R (go (m ∷ []) o ms)
      untouched = (omega arith, (k, tt), ks)

      visit-Within : (s : MsgState) → R (visit net now max_inflight o m ms s)
      unfolding visit
      visit-Within publish_qos0 = removed _ _ _ _
      visit-Within publish_qos1 = taken _ _ _ _ _ (ground arith)
      visit-Within publish_qos2 = taken _ _ _ _ _ (ground arith)
      visit-Within send_pubrec = taken _ _ _ _ _ (ground arith)
      visit-Within resend_pubrel = taken _ _ _ _ _ (ground arith)
      visit-Within resend_pubcomp = taken _ _ _ _ _ (ground arith)
      visit-Within _ = untouched

      again : R (go [] o ((if is_qos2 m.qos then record m { state = send_pubrec } else m) ∷ ms))
      again = (ground arith, tt, (ground (arith, k), ks))

      round-Within : (count : ℕ) → R (write_round net now max_inflight count o m ms)
      unfolding write_round
      round-Within count =
          if_intro R (is_queued m.state) _ _
            (λ _.
              if_intro R
                (not (is_out m.direction) && ((max_inflight == 0) || ltb count max_inflight)) _ _
                (λ _. again) (λ _. untouched))
            (λ _. visit-Within m.state)

    prepend-Within :
        (kept : List ClientMsg) (n k : ℕ) (res : Written)
        → WrittenWithin k res
        → All IsKept kept
        → refs a kept + k ≤ n
        → WrittenWithin n (prepend kept res)
    prepend-Within kept n k none w ks l = tt
    prepend-Within kept n k (some (rc, ms, o)) w ks l =
        (omega (arith, w.0, refs-append a kept ms), append-IsKept kept ms ks w.1)

    follow-Within :
        (rest : Output → List ClientMsg → Written) (m : ClientMsg) (ms : List ClientMsg)
        → All IsKept (m ∷ ms)
        → ((o : Output) (todo : List ClientMsg)
            → All IsKept todo
            → WrittenWithin (refs a todo) (rest o todo))
        → (rnd : Round) → RoundWithin (refs a (m ∷ ms)) rnd
        → WrittenWithin (refs a (m ∷ ms)) (follow rest m ms rnd)
    follow-Within rest m ms all ih (stop rc o) w = (omega arith, all)
    follow-Within rest m ms all ih (go kept o todo) (l, ks, ts) =
        prepend-Within kept (refs a (m ∷ ms)) (refs a todo) (rest o todo) (ih o todo ts) ks l

    loop-Within :
        (fuel count : ℕ) (o : Output) (ms : List ClientMsg)
        → All IsKept ms
        → WrittenWithin (refs a ms) (write_loop net now max_inflight fuel count o ms)
    unfolding write_loop
    loop-Within zero count o ms ks = tt
    loop-Within (suc fuel) count o [] ks = (omega arith, tt)
    loop-Within (suc fuel) count o (m ∷ ms) ks =
        follow-Within _ m ms ks (loop-Within fuel (count_visit count m)) _
          (round-Within o m ms ks.0 ks.1 (count_visit count m))

    abbrev LeftWithin : ℕ → Option (ℕ × Context × Heap × List Packet) → Type 0
    LeftWithin n none = Unit {0}
    LeftWithin n (some (rc, c, h, sent)) = Within a n c.msgs

    written-Within :
        (n : ℕ) (h : Heap) (c : Context) (res : Written)
        → WrittenWithin n res
        → LeftWithin n (written net now max_inflight h c res)
    written-Within n h c none w = tt
    written-Within n h c (some (rc, ms, o)) w = w

    pub message_write-Within :
        (h : Heap) (c : Context)
        → All IsKept c.msgs
        → LeftWithin (refs a c.msgs) (message_write net now max_inflight h c)
    unfolding message_write
    message_write-Within h c ks =
        if_intro (LeftWithin (refs a c.msgs)) (is_context_invalid c) _ _ (λ _. (omega arith, ks))
          (λ _. written-Within (refs a c.msgs) h c _ (
            loop-Within (enough_fuel c.msgs) 0 (record { counts = tally h c.queue; sent = [] })
              c.msgs ks))

    pub write_left-Within :
        (h : Heap) (c : Context) (res : Option (ℕ × Context × Heap × List Packet))
        → All IsKept c.msgs
        → LeftWithin (refs a c.msgs) res
        → Within a (refs a c.msgs) (write_left h c res).0.msgs
    write_left-Within h c none ks w = (omega arith, ks)
    write_left-Within h c (some (rc, c', h', sent)) ks w = w

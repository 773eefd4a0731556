-- ===== src/Queue/Balance/Entries.antt =====
-- The calls on a queue of entries that a reconnection keeps leave such a queue, and add no
-- reference to a stored message but that of an insertion.
pub mod Sent
use opendxl_broker.Prelude.{
  ℕ, zero, suc, ◌+◌, ◌≤◌, ◌≡◌, refl, All, true, false, Bool, Option, none, some, List, [], ◌∷◌,
  ◌++◌, ◌&&◌, ◌||◌, not, ltb, ◌==◌, arith, if_intro, if◌then◌else◌,
}
use opendxl_broker.Broker.Message.{
  Direction, MsgState, publish_qos0, publish_qos1, publish_qos2, send_pubrec, resend_pubrel,
  resend_pubcomp, Qos, ClientMsg, Heap, is_queued, is_out,
}
use opendxl_broker.Broker.Context.{Context, Env, is_context_invalid}
use opendxl_broker.Queue.Insert.{
  Verdict, refuse, drop, accept, append_msg, wake_bridge, admit, judge, message_insert,
}
use opendxl_broker.Queue.Delete.{
  Tally, tally, message_remove, is_message, wake, delete_loop, message_delete,
}
use opendxl_broker.Queue.Write.{
  Network, Packet, Output, Round, stop, go, visit, write_round, count_visit, prepend, follow,
  Written, write_loop, enough_fuel, written, message_write,
}
use opendxl_broker.Queue.Shared.{write_left}
use opendxl_broker.Queue.Balance.{one, refs, SameWeight, IsKept, SameWeight-IsKept}
use opendxl_broker.Queue.Balance.Insert.{refs-append}
use opendxl_broker.Queue.Balance.Reset.{SameWeights}
use opendxl_broker.Queue.Reset.{is_qos2}
use opendxl_broker.Queue.Balance.Delete.{wake-SameWeight}

pub append-IsKept : (ms ns : List ClientMsg) → All IsKept ms → All IsKept ns → All IsKept (ms ++ ns)
append-IsKept [] ns ks ls = ls
append-IsKept (m ∷ ms) ns (k, ks) ls = (k, append-IsKept ms ns ks ls)

append_one-IsKept :
    (ms : List ClientMsg) (m : ClientMsg) → All IsKept ms → IsKept m → All IsKept (ms ++ (m ∷ []))
append_one-IsKept ms m ks k = append-IsKept ms (m ∷ []) ks (k, tt)

module _ (a : ℕ) where
  pub refs-SameWeights : (ms ns : List ClientMsg) → SameWeights ms ns → refs a ns ≡ refs a ms
  refs-SameWeights [] [] w = refl
  refs-SameWeights [] (n ∷ ns) w = absurd w
  refs-SameWeights (m ∷ ms) [] w = absurd w
  refs-SameWeights (m ∷ ms) (n ∷ ns) w =
      rw (w.0.same_store) (ground (arith, refs-SameWeights ms ns w.1))

  -- At most `n` references, and only entries that a reconnection keeps.
  abbrev pub Within : ℕ → List ClientMsg → Type 0
  Within n ms = (refs a ms ≤ n) × All IsKept ms

  abbrev Added : ℕ → ℕ → ℕ × Context × Heap → Type 0
  Added b n (rc, c, h) = Within (one (b == a) + n) c.msgs

  module _ (env : Env) (h : Heap) (c : Context) (mid : ℕ) (dir : Direction) (qos : Qos)
      (retain : Bool) (b : ℕ) (kept : All IsKept c.msgs)
      (new : (is_out dir || is_qos2 qos) ≡ true) where
    same : Within (one (b == a) + refs a c.msgs) c.msgs
    same = (omega arith, kept)

    admit-Added :
        (state : MsgState) (rc : ℕ)
        → Added b (refs a c.msgs) (admit env h c mid dir qos retain b state rc)
    unfolding admit wake_bridge append_msg
    admit-Added state rc =
        if_intro (Added b (refs a c.msgs)) (env.on_insert_message c (h b)).success _ _
          (λ _. (omega (arith, refs-append a c.msgs _), append_one-IsKept c.msgs _ kept new))
          (λ _. same)

    verdict-Added :
        (v : Verdict)
        → judge env c (h b) dir qos ≡ v
        → Added b (refs a c.msgs) (message_insert env h c mid dir qos retain b)
    unfolding message_insert
    verdict-Added (refuse rc) e = rw (e, message_insert) same
    verdict-Added drop e = rw (e, message_insert) same
    verdict-Added (accept state rc) e = rw (e, message_insert) (admit-Added state rc)

    pub message_insert-Within :
        Added b (refs a c.msgs) (message_insert env h c mid dir qos retain b)
    message_insert-Within = verdict-Added (judge env c (h b) dir qos) refl

  abbrev Fewer : ℕ → List ClientMsg × Tally → Type 0
  Fewer n (ms, t) = Within n ms

  Within-cons :
      (m m' : ClientMsg) (ms ns : List ClientMsg)
      → SameWeight m m'
      → IsKept m
      → Within (refs a ms) ns
      → Within (refs a (m ∷ ms)) (m' ∷ ns)
  Within-cons m m' ms ns w k (l, ks) =
      (rw (w.same_store) (omega (arith, l)), (SameWeight-IsKept m m' w k, ks))

  Within-tail :
      (m : ClientMsg) (ms ns : List ClientMsg) → Within (refs a ms) ns → Within (refs a (m ∷ ms)) ns
  Within-tail m ms ns (l, ks) = (omega (arith, l), ks)

  module _ (now max_inflight mid : ℕ) (dir : Direction) where
    delete_loop-Fewer :
        (t : Tally) (index : ℕ) (deleted : Bool) (ms : List ClientMsg)
        → All IsKept ms
        → Fewer (refs a ms) (delete_loop now max_inflight mid dir t index deleted ms)
    unfolding delete_loop
    delete_loop-Fewer t index deleted [] ks = (omega arith, tt)
    delete_loop-Fewer t index deleted (m ∷ ms) (k, ks) =
        if_intro (Fewer (refs a (m ∷ ms))) (is_message mid dir m') _ _
          (λ _.
            if_intro (Fewer (refs a (m ∷ ms))) (ltb max_inflight index) _ _ (λ _. gone ms all)
              (λ _. gone _ (delete_loop-Fewer (message_remove t m') index true ms ks)))
          (λ _.
            if_intro (Fewer (refs a (m ∷ ms))) (ltb max_inflight (index + 1) && deleted) _ _
              (λ _. stays ms all) (λ _. stays _ (delete_loop-Fewer t (index + 1) deleted ms ks)))
      where
        m' : ClientMsg
        m' = wake now max_inflight (index + 1) m

        all : Within (refs a ms) ms
        all = (omega arith, ks)

        gone : (ns : List ClientMsg) → Within (refs a ms) ns → Within (refs a (m ∷ ms)) ns
        gone = Within-tail m ms

        stays : (ns : List ClientMsg) → Within (refs a ms) ns → Within (refs a (m ∷ ms)) (m' ∷ ns)
        stays ns = Within-cons m m' ms ns (wake-SameWeight now max_inflight (index + 1) m) k

    pub message_delete-Within :
        (h : Heap) (c : Context)
        → All IsKept c.msgs
        → Within (refs a c.msgs) (message_delete now max_inflight h c.queue mid dir).0.msgs
    unfolding message_delete
    message_delete-Within h c = delete_loop-Fewer (tally h c.queue) 0 false c.msgs

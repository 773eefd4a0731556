-- ===== src/Queue/Balance/Insert.antt =====
-- Insertion keeps the counters of a queue and the reference counts right.
use opendxl_broker.Prelude.{
  ℕ, ◌+◌, ◌≡◌, refl, Bool, List, [], ◌∷◌, ◌++◌, length-append, arith, if_intro, ◌∙◌,
}
use opendxl_broker.Broker.Message.{Direction, MsgState, Qos, ClientMsg, Heap, ref}
use opendxl_broker.Broker.Context.{Queue, Context, Env, InsertAnswer}
use opendxl_broker.Queue.Insert.{
  Verdict, refuse, drop, accept, append_msg, wake_bridge, set_client_payload, admit, judge,
  message_insert,
}
use opendxl_broker.Queue.Balance.{IsBalanced, count12, refs}

pub count12-append : (ms ns : List ClientMsg) → count12 (ms ++ ns) ≡ count12 ms + count12 ns
count12-append [] ns = omega arith
count12-append (m ∷ ms) ns = omega (arith, count12-append ms ns)

pub refs-append : (a : ℕ) (ms ns : List ClientMsg) → refs a (ms ++ ns) ≡ refs a ms + refs a ns
refs-append a [] ns = omega arith
refs-append a (m ∷ ms) ns = omega (arith, refs-append a ms ns)

append-Balanced :
    (a r : ℕ) (h : Heap) (q : Queue) (m : ClientMsg)
    → IsBalanced a r (q, h)
    → IsBalanced a r (append_msg q m, ref h m.store)
unfolding append_msg
append-Balanced a r h q m b = record {
  counted = ground (arith, b.counted, length-append q.msgs (m ∷ []));
  counted12 = ground (arith, b.counted12, count12-append q.msgs (m ∷ []));
  referenced = ground (arith, b.referenced, refs-append a q.msgs (m ∷ []));
}

payload_ref_count :
    (h : Heap) (b a : ℕ) (answer : InsertAnswer)
    → (set_client_payload h b answer a).ref_count ≡ (h a).ref_count
payload_ref_count h b a answer = ground arith

payload-Balanced :
    (a r : ℕ) (h : Heap) (b : ℕ) (answer : InsertAnswer) (q : Queue)
    → IsBalanced a r (q, h)
    → IsBalanced a r (q, set_client_payload h b answer)
payload-Balanced a r h b answer q v = record {
  counted = v.counted;
  counted12 = v.counted12;
  referenced = payload_ref_count h b a answer ∙ v.referenced;
}

-- The queue that a call leaves, with the heap.
abbrev pub left_by : ℕ × Context × Heap → Queue × Heap
left_by (rc, c, h) = (c.queue, h)

module _ (env : Env) (a r : ℕ) (h : Heap) (c : Context) where
  admit-Balanced :
      (mid : ℕ) (dir : Direction) (qos : Qos) (retain : Bool) (b : ℕ) (state : MsgState) (rc : ℕ)
      → IsBalanced a r (c.queue, h)
      → IsBalanced a r (left_by (admit env h c mid dir qos retain b state rc))
  unfolding admit wake_bridge
  admit-Balanced mid dir qos retain b state rc v =
      let answer = env.on_insert_message c (h b) in
      let v' = payload-Balanced a r h b answer c.queue v in
      if_intro (λ (res : ℕ × Context × Heap). IsBalanced a r (left_by res)) answer.success _ _
        (λ _. append-Balanced a r (set_client_payload h b answer) c.queue _ v') (λ _. v')

  verdict-Balanced :
      (mid : ℕ) (dir : Direction) (qos : Qos) (retain : Bool) (b : ℕ) (v : Verdict)
      → IsBalanced a r (c.queue, h)
      → judge env c (h b) dir qos ≡ v
      → IsBalanced a r (left_by (message_insert env h c mid dir qos retain b))
  unfolding message_insert
  verdict-Balanced mid dir qos retain b (refuse rc) v e = rw (e, message_insert) v
  verdict-Balanced mid dir qos retain b drop v e = rw (e, message_insert) v
  verdict-Balanced mid dir qos retain b (accept state rc) v e =
      rw (e, message_insert) (admit-Balanced mid dir qos retain b state rc v)

  -- Where the counter msg_count is the number of entries, msg_count12 the number of those above
  -- quality of service 0, and the reference count of the stored message `a` the number of
  -- references to it, of which `r` stand outside the queue: this also holds after
  -- mqtt3_db_message_insert, whichever way the checks and the DXL core decide.
  pub message_insert-Balanced :
      (mid : ℕ) (dir : Direction) (qos : Qos) (retain : Bool) (b : ℕ)
      → IsBalanced a r (c.queue, h)
      → IsBalanced a r (left_by (message_insert env h c mid dir qos retain b))
  message_insert-Balanced mid dir qos retain b v =
      verdict-Balanced mid dir qos retain b (judge env c (h b) dir qos) v refl

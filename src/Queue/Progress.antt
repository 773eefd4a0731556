-- ===== src/Queue/Progress.antt =====
-- The loop of mqtt3_db_message_write comes to an end.
use opendxl_broker.Prelude.{
  ℕ, zero, suc, ◌+◌, ◌≤◌, ◌<◌, ◌≡◌, refl, subst, Bool, true, false, none, some, List, [], ◌∷◌, ◌&&◌,
  ◌||◌, not, length, All, ltb, ◌==◌, if◌then◌else◌, arith, if_intro, &&_true, Bool-cases, inl, inr,
}
use opendxl_broker.Broker.Message.{
  MsgState, publish_qos0, publish_qos1, publish_qos2, send_pubrec, resend_pubrel, resend_pubcomp,
  ClientMsg, Heap, is_queued, is_out,
}
use opendxl_broker.Broker.Context.{Context, is_context_invalid}
use opendxl_broker.Queue.Delete.{tally, with_tally}
use opendxl_broker.Queue.Reset.{is_qos2}
use opendxl_broker.Queue.Balance.{IsBalanced}
use opendxl_broker.Queue.Balance.Write.{WriteBalanced, message_write-Balanced}
use opendxl_broker.Queue.Write.{
  Packet, Network, Output, Written, Round, stop, go, visit, write_round, count_visit, prepend,
  follow, write_loop, enough_fuel, message_write,
}

-- A queued incoming message has quality of service 2; the broker queues no others.
abbrev pub IsSendable : ClientMsg → Type 0
IsSendable m = (is_queued m.state && (not (is_out m.direction) && not (is_qos2 m.qos))) ≡ false

-- The visits that the entries may take.
abbrev visits : List ClientMsg → ℕ
visits [] = 0
visits (m ∷ ms) = (if is_queued m.state then 2 else 1) + visits ms

visits-le : (ms : List ClientMsg) → visits ms ≤ length ms + length ms
visits-le [] = omega arith
visits-le (m ∷ ms) = ground (arith, visits-le ms)

-- A round that goes on leaves fewer visits.
abbrev RoundFalls : ClientMsg → List ClientMsg → Round → Type 0
RoundFalls m ms (stop rc o) = Unit {0}
RoundFalls m ms (go kept o todo) = (visits todo < visits (m ∷ ms)) × All IsSendable todo

again_qos2 :
    (m : ClientMsg)
    → is_queued m.state ≡ true
    → not (is_out m.direction) ≡ true
    → IsSendable m
    → is_qos2 m.qos ≡ true
again_qos2 m queued incoming ok = ground arith

module _ (net : Network) (now max_inflight : ℕ) (o : Output) (m : ClientMsg) (ms : List ClientMsg)
    (ok : All IsSendable (m ∷ ms)) where
  abbrev P : Round → Type 0
  P = RoundFalls m ms

  on : (visits ms < visits (m ∷ ms)) × All IsSendable ms
  on = (ground arith, ok.1)

  sent-RoundFalls :
      (took : Bool) (rc : ℕ) (o' o'' : Output) (kept : List ClientMsg)
      → P (if took then go kept o' ms else stop rc o'')
  sent-RoundFalls true rc o' o'' kept = on
  sent-RoundFalls false rc o' o'' kept = tt

  visit-RoundFalls : (s : MsgState) → P (visit net now max_inflight o m ms s)
  unfolding visit
  visit-RoundFalls publish_qos0 = sent-RoundFalls _ _ _ _ _
  visit-RoundFalls publish_qos1 = sent-RoundFalls _ _ _ _ _
  visit-RoundFalls publish_qos2 = sent-RoundFalls _ _ _ _ _
  visit-RoundFalls send_pubrec = sent-RoundFalls _ _ _ _ _
  visit-RoundFalls resend_pubrel = sent-RoundFalls _ _ _ _ _
  visit-RoundFalls resend_pubcomp = sent-RoundFalls _ _ _ _ _
  visit-RoundFalls _ = on

  round-RoundFalls : (count : ℕ) → P (write_round net now max_inflight count o m ms)
  unfolding write_round
  round-RoundFalls count =
      if_intro P (is_queued m.state) _ _
        (λ queued.
          if_intro P (not (is_out m.direction) && ((max_inflight == 0) || ltb count max_inflight)) _
            _
            (λ incoming.
              let q = again_qos2 m queued (&&_true _ _ incoming).0 ok.0 in
              rw q (rw queued (omega arith), (refl, ok.1)))
            (λ _. on))
        (λ _. visit-RoundFalls m.state)

abbrev Returns : Written → Type 0
Returns none = ⊥
Returns (some r) = Unit {0}

prepend-Returns : (kept : List ClientMsg) (r : Written) → Returns r → Returns (prepend kept r)
prepend-Returns kept none h = h
prepend-Returns kept (some (rc, ms, o)) h = tt

follow-Returns :
    (rest : Output → List ClientMsg → Written) (m : ClientMsg) (ms : List ClientMsg) (fuel : ℕ)
    → ((o : Output) (todo : List ClientMsg)
        → visits todo < fuel
        → All IsSendable todo
        → Returns (rest o todo))
    → visits (m ∷ ms) < suc fuel
    → (rnd : Round) → RoundFalls m ms rnd
    → Returns (follow rest m ms rnd)
follow-Returns rest m ms fuel ih f (stop rc o) p = tt
follow-Returns rest m ms fuel ih f (go kept o todo) p =
    prepend-Returns kept (rest o todo) (ih o todo (omega arith) p.1)

module _ (net : Network) (now max_inflight : ℕ) where
  loop-Returns :
      (fuel count : ℕ) (o : Output) (ms : List ClientMsg)
      → visits ms < fuel
      → All IsSendable ms
      → Returns (write_loop net now max_inflight fuel count o ms)
  unfolding write_loop
  loop-Returns zero count o ms f ok = elim f [ ]
  loop-Returns (suc fuel) count o [] f ok = tt
  loop-Returns (suc fuel) count o (m ∷ ms) f ok =
      follow-Returns _ m ms fuel (loop-Returns fuel (count_visit count m)) f _
        (round-RoundFalls net now max_inflight o m ms ok (count_visit count m))

  Returns-some : (r : Written) → Returns r → (w : ℕ × List ClientMsg × Output) × (r ≡ some w)
  Returns-some none h = absurd h
  Returns-some (some w) h = (w, refl)

  -- Unless an incoming message below quality of service 2 is queued, the fuel of the model is
  -- enough: the call returns.
  pub message_write_returns :
      (h : Heap) (c : Context)
      → All IsSendable c.msgs
      → (res : ℕ × Context × Heap × List Packet) × (message_write net now max_inflight h c
          ≡ some res)
  unfolding message_write
  message_write_returns h c ok = elim (Bool-cases (is_context_invalid c)) [
    | inl e ↦ ((3, c, h, []), rw e)
    | inr e ↦
        let start : Output = record { counts = tally h c.queue; sent = [] } in
        let fuel = enough_fuel c.msgs in
        let ((rc, ms, o), f) =
          Returns-some (write_loop net now max_inflight fuel 0 start c.msgs)
            (loop-Returns fuel 0 start c.msgs (omega (arith, visits-le c.msgs)) ok) in
        ((rc, record c { queue = (with_tally ms o.counts).0 }, o.counts.heap, o.sent), rw (e, f))
  ]

  -- For a queue whose queued incoming entries all have quality of service 2, where the counter
  -- msg_count is the number of entries, msg_count12 the number of those above quality of service
  -- 0, and the reference count of the stored message `a` the number of references to it, of which
  -- `r` stand outside the queue, and for any answers of the network layer: mqtt3_db_message_write
  -- comes to its end within the fuel of the model, and the same holds of the queue and the heap
  -- that it leaves.
  pub message_write_correct :
      (a r : ℕ) (h : Heap) (c : Context)
      → All IsSendable c.msgs
      → IsBalanced a r (c.queue, h)
      → (rc : ℕ) × (c' : Context) × (h' : Heap) × (sent : List Packet) × (message_write net now
            max_inflight h c
          ≡ some (rc, c', h', sent))
        × IsBalanced a r (c'.queue, h')
  message_write_correct a r h c ok b =
      let ((rc, c', h', sent), e) = message_write_returns h c ok in
      (
        rc,
        c',
        h',
        sent,
        e,
        subst (WriteBalanced net now max_inflight a r) e
            (message_write-Balanced net now max_inflight a r h c b),
      )

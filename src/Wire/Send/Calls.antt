-- ===== src/Wire/Send/Calls.antt =====
-- Any sequence of calls on a connection sends the packets in their order.
use mathlib.Core.List.{append-nil, append_assoc}
use opendxl_broker.Prelude.{
  ℕ, ◌<◌, ◌≡◌, refl, sym, ap, ◌∙◌, inl, inr, true, false, Option, none, some, List, [], ◌∷◌, ◌++◌,
  take, All, arith, Bool-cases,
}
use opendxl_broker.Wire.Send.{
  Network, TakesOffered, Outgoing, Connection, offered, Sent, write_packets, packets, with_packets,
  packet_write, packet_queue,
}
use opendxl_broker.Wire.Send.Stream.{pending, Fits, write_packets-SentAll}

-- A call of one of the two functions, with the answers of the network in it.
pub data Call : Type 0 where
  queue : Network → Outgoing → Call
  write : Network → Call

unfoldable pub call : Call → Connection → Option (ℕ × Connection × List ℕ)
call (queue net p) c = packet_queue net p c
call (write net) c = packet_write net c

-- The connection behind some calls, and the bytes that were sent.
unfoldable pub calls : List Call → Connection → Option (Connection × List ℕ)
calls [] c = some (c, [])
calls (k ∷ ks) c = elim (call k c) [
  | none ↦ none
  | some (rc, c', sent) ↦ elim (calls ks c') [
    | none ↦ none
    | some (d, rest) ↦ some (d, sent ++ rest)
  ]
]

-- The bytes of the packets that are queued.
unfoldable pub queued : List Call → List ℕ
queued [] = []
queued (queue net p ∷ ks) = take p.packet_length p.payload ++ queued ks
queued (write net ∷ ks) = queued ks

abbrev pub Sound : Call → Type 0
Sound (queue net p) = TakesOffered net × (p.packet_length < 4294967296)
Sound (write net) = TakesOffered net

pending-append : (ps qs : List Outgoing) → pending (ps ++ qs) ≡ pending ps ++ pending qs
unfolding pending
pending-append [] qs = refl
pending-append (p ∷ ps) qs =
    ap (λ xs. offered p ++ xs) (pending-append ps qs)
    ∙ sym (append_assoc (offered p) (pending ps) (pending qs))

packets-with_packets : (c : Connection) (ps : List Outgoing) → packets (with_packets c ps) ≡ ps
unfolding packets with_packets
packets-with_packets c [] = refl
packets-with_packets c (p ∷ ps) = refl

-- What was sent and what is left of the packets of a connection.
abbrev Returns : Connection → List ℕ → Option (ℕ × Connection × List ℕ) → Type 0
Returns c more o =
    (rc : ℕ) × (d : Connection) × (sent : List ℕ) × (o ≡ some (rc, d, sent))
    × (pending (packets c) ++ more ≡ sent ++ pending (packets d))
    × All Fits (packets d)

module _ (net : Network) (c : Connection) where
  packet_write_invalid : c.invalid ≡ true → packet_write net c ≡ some (4, c, [])
  unfolding packet_write
  packet_write_invalid e = ground arith

  packet_write_valid :
      (s : Sent)
      → c.invalid ≡ false
      → write_packets net c.wsi 0 (packets c) ≡ some s
      → packet_write net c ≡ some (s.rc, with_packets c s.left, s.stream)
  unfolding packet_write
  packet_write_valid s e eq = ground arith

  packet_write-Returns : TakesOffered net → All Fits (packets c) → Returns c [] (packet_write net c)
  packet_write-Returns law f = elim (Bool-cases c.invalid) [
    | inl e ↦ (4, c, [], packet_write_invalid e, append-nil (pending (packets c)), f)
    | inr e ↦
        let (s, eq, st, fits) = write_packets-SentAll net law c.wsi 0 (packets c) f in
        (
          s.rc,
          with_packets c s.left,
          s.stream,
          packet_write_valid s e eq,
          append-nil (pending (packets c))
              ∙ st
              ∙ ap (λ ps. s.stream ++ pending ps) (sym (packets-with_packets c s.left)),
          rw (packets-with_packets c s.left) fits,
        )
  ]

All-snoc : (ps : List Outgoing) (p : Outgoing) → All Fits ps → Fits p → All Fits (ps ++ (p ∷ []))
All-snoc [] p f g = (g, tt)
All-snoc (q ∷ ps) p f g = (f.0, All-snoc ps p f.1 g)

-- A packet as it is queued.
abbrev fresh : Outgoing → Outgoing
fresh p = record p { pos = 0; to_process = p.packet_length }

abbrev with_queued : Outgoing → Connection → Connection
with_queued p c = record c { out_packet = c.out_packet ++ (fresh p ∷ []) }

packets-queued :
    (p : Outgoing) (c : Connection) → packets (with_queued p c) ≡ packets c ++ (fresh p ∷ [])
unfolding packets
packets-queued p c = behind c.current_out_packet
  where
    behind :
        (o : Option Outgoing)
        → (elim o as (λ _. List Outgoing) [
          | none ↦ c.out_packet ++ (fresh p ∷ [])
          | some q ↦ q ∷ (c.out_packet ++ (fresh p ∷ []))
        ])
          ≡ (elim o as (λ _. List Outgoing) [ none ↦ c.out_packet | some q ↦ q ∷ c.out_packet ])
            ++ (fresh p ∷ [])
    behind none = refl
    behind (some q) = refl

offered-fresh : (p : Outgoing) → pending (fresh p ∷ []) ≡ take p.packet_length p.payload
unfolding pending offered
offered-fresh p = append-nil (take p.packet_length p.payload)

pending-queued :
    (p : Outgoing) (c : Connection)
    → pending (packets (with_queued p c)) ≡ pending (packets c) ++ take p.packet_length p.payload
pending-queued p c =
    ap pending (packets-queued p c)
    ∙ pending-append (packets c) (fresh p ∷ [])
    ∙ ap (λ xs. pending (packets c) ++ xs) (offered-fresh p)

packet_queue_socket :
    (net : Network) (p : Outgoing) (c : Connection)
    → c.wsi ≡ false
    → packet_queue net p c ≡ packet_write net (with_queued p c)
unfolding packet_queue
packet_queue_socket net p c e = ground arith

packet_queue-Returns :
    (net : Network) (p : Outgoing) (c : Connection)
    → TakesOffered net
    → p.packet_length < 4294967296
    → All Fits (packets c)
    → Returns c (take p.packet_length p.payload) (packet_queue net p c)
unfolding packet_queue
packet_queue-Returns net p c law small f =
    let fits : All Fits (packets (with_queued p c)) =
      rw (packets-queued p c) (All-snoc (packets c) (fresh p) f (omega arith)) in
    elim (Bool-cases c.wsi) [
      | inl e ↦ (0, with_queued p c, [], rw e refl, sym (pending-queued p c), fits)
      | inr e ↦
          let (rc, d, sent, eq, st, fits') = packet_write-Returns net (with_queued p c) law fits in
          (
            rc,
            d,
            sent,
            packet_queue_socket net p c e ∙ eq,
            sym (pending-queued p c) ∙ sym (append-nil (pending (packets (with_queued p c)))) ∙ st,
            fits',
          )
    ]

abbrev pub Streamed : List Call → Connection → Type 0
Streamed ks c =
    (d : Connection) × (sent : List ℕ) × (calls ks c ≡ some (d, sent))
    × (pending (packets c) ++ queued ks ≡ sent ++ pending (packets d))

-- One call, and then the others.
Streamed-call :
    (k : Call) (ks : List Call) (c : Connection) (more : List ℕ)
    → Returns c more (call k c)
    → queued (k ∷ ks) ≡ more ++ queued ks
    → ((d : Connection) → All Fits (packets d) → Streamed ks d)
    → Streamed (k ∷ ks) c
unfolding calls
Streamed-call k ks c more (rc, d, sent, eq, st, fits) q rest =
    let (d', sent', eq', st') = rest d fits in
    (
      d',
      sent ++ sent',
      rw (eq, calls) (rw (eq', calls) refl),
      ap (λ xs. pending (packets c) ++ xs) q
          ∙ sym (append_assoc (pending (packets c)) more (queued ks))
          ∙ ap (λ xs. xs ++ queued ks) st
          ∙ append_assoc sent (pending (packets d)) (queued ks)
          ∙ ap (λ xs. sent ++ xs) st'
          ∙ sym (append_assoc sent sent' (pending (packets d'))),
    )

-- For any sequence of calls of _mosquitto_packet_queue and _mosquitto_packet_write on a connection,
-- with packets of fewer than 2^32 bytes, each call with a network that takes no more bytes than it
-- is offered, and with the numbers of the packets that the connection has within 32 bits: every
-- call returns, and the bytes that were taken, with those still to be sent behind them, are the
-- bytes that were to be sent at first and then those of the queued packets, in their order.
pub calls-Streamed :
    (ks : List Call) (c : Connection) → All Sound ks → All Fits (packets c) → Streamed ks c
unfolding calls queued call
calls-Streamed [] c sound f = (c, [], refl, append-nil (pending (packets c)))
calls-Streamed (queue net p ∷ ks) c sound f =
    Streamed-call (queue net p) ks c (take p.packet_length p.payload)
      (packet_queue-Returns net p c sound.0.0 sound.0.1 f) refl
      (λ d g. calls-Streamed ks d sound.1 g)
calls-Streamed (write net ∷ ks) c sound f =
    Streamed-call (write net) ks c [] (packet_write-Returns net c sound.0 f) refl
      (λ d g. calls-Streamed ks d sound.1 g)

-- ===== src/Wire/Send.antt =====
-- The queue of outgoing packets: _mosquitto_packet_queue and _mosquitto_packet_write of
-- src/mqtt-core/lib/net_mosq.c. The network is a parameter, asked once for each call of
-- _mosquitto_net_write or mosquitto_ws_write. The list `out_packet` has its last element at its end.
pub mod Stream
pub mod Calls
use opendxl_broker.Prelude.{
  ℕ, zero, suc, ◌+◌, ◌-◌, ◌≤◌, ◌≡◌, Bool, true, false, Option, none, some, List, [], ◌∷◌, ◌++◌,
  length, take, drop, ltb, ◌==◌, if◌then◌else◌,
}
use opendxl_broker.Wire.Packet.{u32}

-- What a write answers: a number of bytes, or -1 with EAGAIN, ECONNRESET or another errno.
pub data Answer : Type 0 where
  took : ℕ → Answer
  again : Answer
  reset : Answer
  failed : Answer

-- The answer to each call, counted from 0, with the bytes that it offers.
abbrev pub Network : Type 0
Network = ℕ → List ℕ → Answer

-- As write(2) says, no more bytes are taken than are offered.
abbrev pub TakesOffered : Network → Type 0
TakesOffered net = (i : ℕ) (bytes : List ℕ) (n : ℕ) → net i bytes ≡ took n → n ≤ length bytes

-- Of a packet what is used to send it.
pub record Outgoing : Type 0 where
  pub packet_length : ℕ
  pub to_process : ℕ
  pub pos : ℕ
  pub payload : List ℕ

-- What is used of a connection: whether it is a websocket, and its packets.
pub record Connection : Type 0 where
  pub invalid : Bool
  pub wsi : Bool
  pub current_out_packet : Option Outgoing
  pub out_packet : List Outgoing

abbrev pub err_success : ℕ
err_success = 0

abbrev pub err_no_conn : ℕ
err_no_conn = 4

abbrev pub err_conn_lost : ℕ
err_conn_lost = 7

abbrev pub err_errno : ℕ
err_errno = 14

-- &(packet->payload[packet->pos]) for to_process bytes.
unfoldable pub offered : Outgoing → List ℕ
offered p = take p.to_process (drop p.pos p.payload)

unfoldable pub advance : ℕ → Outgoing → Outgoing
advance n p = record p { to_process = u32 (p.to_process + 4294967296 - n); pos = u32 (p.pos + n) }

-- Where the loop over a packet ends: the packet, its bytes that were taken, the number of the next
-- call, and the code with which the function returns, if it does.
pub record Written : Type 0 where
  pub packet : Outgoing
  pub sent : List ℕ
  pub calls : ℕ
  pub returned : Option ℕ

-- A packet that is done, or a return.
unfoldable pub written : Outgoing → List ℕ → ℕ → Option ℕ → Option Written
written p bytes i rc = some (record { packet = p; sent = bytes; calls = i; returned = rc })

-- Bytes that were sent before.
unfoldable pub after : List ℕ → Option Written → Option Written
after bytes none = none
after bytes (some w) = some (record w { sent = bytes ++ w.sent })

-- while(packet->to_process > 0) on fuel; `none` says that the fuel ran out.
unfoldable pub write_packet : Network → Bool → ℕ → ℕ → Outgoing → Option Written
write_packet net wsi zero i p = if p.to_process == 0 then written p [] i none else none
write_packet net wsi (suc fuel) i p = elim (p.to_process == 0) [
  | true ↦ written p [] i none
  | false ↦ elim (net i (offered p)) [
    | took n ↦ elim wsi [
      | true ↦
          (if ltb 0 n
            then written (advance p.to_process p) (offered p) (i + 1) none
            else written (advance p.to_process p) (offered p) (i + 1) (some err_success))
      | false ↦ elim (ltb 0 n) [
        | true ↦ after (take n (offered p)) (write_packet net wsi fuel (i + 1) (advance n p))
        | false ↦ written p [] (i + 1) (some err_errno)
      ]
    ]
    | again ↦ written p [] (i + 1) (some (if wsi then err_errno else err_success))
    | reset ↦ written p [] (i + 1) (some (if wsi then err_errno else err_conn_lost))
    | failed ↦ written p [] (i + 1) (some err_errno)
  ]
]

-- The code, the packets that are left, the current one first, and the bytes that were taken.
pub record Sent : Type 0 where
  pub rc : ℕ
  pub left : List Outgoing
  pub stream : List ℕ

unfoldable pub before : List ℕ → Option Sent → Option Sent
before bytes none = none
before bytes (some s) = some (record s { stream = bytes ++ s.stream })

-- while(mosq->current_out_packet)
unfoldable pub write_packets : Network → Bool → ℕ → List Outgoing → Option Sent
write_packets net wsi i [] = some (record { rc = err_success; left = []; stream = [] })
write_packets net wsi i (p ∷ ps) = elim (write_packet net wsi p.to_process i p) [
  | none ↦ none
  | some w ↦ elim w.returned [
    | some rc ↦ some (record { rc = rc; left = w.packet ∷ ps; stream = w.sent })
    | none ↦ before w.sent (write_packets net wsi w.calls ps)
  ]
]

-- The current packet in front of the others.
unfoldable pub packets : Connection → List Outgoing
packets c = elim c.current_out_packet [ none ↦ c.out_packet | some p ↦ p ∷ c.out_packet ]

-- The first packet becomes the current one.
unfoldable pub with_packets : Connection → List Outgoing → Connection
with_packets c [] = record c { current_out_packet = none; out_packet = [] }
with_packets c (p ∷ ps) = record c { current_out_packet = some p; out_packet = ps }

unfoldable pub packet_write : Network → Connection → Option (ℕ × Connection × List ℕ)
packet_write net c =
    if c.invalid then some (err_no_conn, c, []) else elim (write_packets net c.wsi 0 (packets c)) [
      | none ↦ none
      | some s ↦ some (s.rc, with_packets c s.left, s.stream)
    ]

unfoldable pub packet_queue : Network → Outgoing → Connection → Option (ℕ × Connection × List ℕ)
packet_queue net packet c =
    let queued = record c {
      out_packet =
          c.out_packet ++ (record packet { pos = 0; to_process = packet.packet_length } ∷ []);
    } in
    if c.wsi then some (err_success, queued, []) else packet_write net queued

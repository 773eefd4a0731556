-- ===== src/Wire/Packet.antt =====
-- struct _mosquitto_packet of src/mqtt-core/lib/mosquitto_internal.h, the encoder
-- _mosquitto_packet_alloc of src/mqtt-core/lib/util_mosq.c, and of src/mqtt-core/lib/net_mosq.c the
-- decoder of the remaining length in _mosquitto_packet_read and the readers and writers of fields.
-- The only error of a reader is MOSQ_ERR_PROTOCOL, here `none`; a writer whose `assert` fails gives
-- `none` too.
use opendxl_broker.Prelude.{
  ℕ, zero, suc, ◌+◌, ◌*◌, ◌/◌, ◌%◌, Option, none, some, List, [], ◌∷◌, Str, length, take, ltb, leb,
  ◌==◌, if◌then◌else◌,
}

-- The bytes from the address `payload` on. What is not written yet is arbitrary.
abbrev pub Bytes : Type 0
Bytes = ℕ → ℕ

pub record Packet : Type 0 where
  pub command : ℕ
  pub remaining_count : ℕ
  pub remaining_mult : ℕ
  pub remaining_length : ℕ
  pub packet_length : ℕ
  pub pos : ℕ
  pub payload : Bytes

abbrev pub u16 : ℕ → ℕ
u16 n = n % 65536

abbrev pub u32 : ℕ → ℕ
u32 n = n % 4294967296

infixl 10 ◌>>=◌
abbrev pub ◌>>=◌ {ℓ κ} : {A : Type ℓ} {B : Type κ} → Option A → (A → Option B) → Option B
none >>= f = none
some a >>= f = f a

-- The digits of the loop of _mosquitto_packet_alloc: `slots` is 5 - remaining_count.
unfoldable pub encode_loop : ℕ → ℕ → List ℕ
encode_loop zero n = []
encode_loop (suc slots) n =
    let more = encode_loop slots (n / 128) in
    if ltb 0 (n / 128) then (n % 128 + 128) ∷ more else (n % 128) ∷ []

abbrev pub write_at : Bytes → ℕ → ℕ → Bytes
write_at b p v i = if i == p then v else b i

unfoldable pub write_list : Bytes → ℕ → List ℕ → Bytes
write_list b p [] = b
write_list b p (v ∷ vs) = write_list (write_at b p v) (p + 1) vs

-- `fresh` is the memory that the allocation gives; `none` is MOSQ_ERR_PAYLOAD_SIZE.
unfoldable pub packet_alloc : Bytes → Packet → Option Packet
packet_alloc fresh p =
    let digits = encode_loop 5 p.remaining_length in
    let count = length digits in
    if count == 5
    then none
    else some (record p {
      remaining_count = count;
      packet_length = u32 (p.remaining_length + 1 + count);
      payload = write_list fresh 0 (p.command ∷ digits);
      pos = 1 + count;
    })

-- Where the bytes at hand end before the length does, the state is kept for the next call.
pub data Arrival : Type 0 where
  again : (count mult len : ℕ) → Arrival
  complete : (count mult len : ℕ) → List ℕ → Arrival
  broken : Arrival

unfoldable pub decode_loop : ℕ → ℕ → ℕ → List ℕ → Arrival
decode_loop count mult len [] = again count mult len
decode_loop count mult len (b ∷ bs) =
    let len' = u32 (len + u32 (b % 128 * mult)) in
    let mult' = u32 (mult * 128) in
    let more = decode_loop (count + 1) mult' len' bs in
    if ltb 4 (count + 1)
    then broken
    else if leb 128 (b % 256)
    then more
    else complete (count + 1) mult' len' bs

unfoldable pub read_byte : Packet → Option (ℕ × Packet)
read_byte p =
    if ltb p.remaining_length (u32 (p.pos + 1))
    then none
    else some (p.payload p.pos, record p { pos = u32 (p.pos + 1) })

unfoldable pub write_byte : Packet → ℕ → Option Packet
write_byte p byte =
    if leb (u32 (p.pos + 1)) p.packet_length
    then some (record p { payload = write_at p.payload p.pos (byte % 256); pos = u32 (p.pos + 1) })
    else none

-- memcpy from the payload
unfoldable pub copy : Bytes → ℕ → ℕ → List ℕ
copy b p zero = []
copy b p (suc n) = b p ∷ copy b (p + 1) n

unfoldable pub read_bytes : Packet → ℕ → Option (List ℕ × Packet)
read_bytes p count =
    if ltb p.remaining_length (u32 (p.pos + count))
    then none
    else some (copy p.payload p.pos count, record p { pos = u32 (p.pos + count) })

unfoldable pub write_bytes : Packet → List ℕ → Option Packet
write_bytes p bytes =
    if leb (u32 (p.pos + length bytes)) p.packet_length
    then some
        (record p { payload = write_list p.payload p.pos bytes; pos = u32 (p.pos + length bytes) })
    else none

unfoldable pub read_uint16 : Packet → Option (ℕ × Packet)
read_uint16 p =
    if ltb p.remaining_length (u32 (p.pos + 2))
    then none
    else some (
      u16 (p.payload p.pos * 256 + p.payload (u32 (p.pos + 1))),
      record p { pos = u32 (u32 (p.pos + 1) + 1) },
    )

-- MOSQ_MSB and MOSQ_LSB
unfoldable pub write_uint16 : Packet → ℕ → Option Packet
unfolding write_byte
write_uint16 p word = do p' ← write_byte p (word / 256 % 256); write_byte p' (word % 256)

unfoldable pub read_string : Packet → Option (Str × Packet)
unfolding read_uint16
read_string p = do
  r ← read_uint16 p
  let (len, p') = r in
      if ltb p'.remaining_length (u32 (p'.pos + len))
      then none
      else some (copy p'.payload p'.pos len, record p' { pos = u32 (p'.pos + len) })

-- The caller gives the length, cast to sixteen bits.
unfoldable pub write_string : Packet → Str → Option Packet
unfolding write_uint16 write_bytes
write_string p str = do
  p' ← write_uint16 p (u16 (length str))
  write_bytes p' (take (u16 (length str)) str)

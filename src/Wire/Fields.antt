-- ===== src/Wire/Fields.antt =====
-- The fields of a packet: what the writers write the readers read.
use opendxl_broker.Prelude.{
  ℕ, ◌+◌, ◌/◌, ◌%◌, ◌<◌, ◌≤◌, ◌≡◌, refl, ◌∙◌, some, List, [], ◌∷◌, Str, length, take, arith,
}
use opendxl_broker.Wire.Packet.{
  Bytes, Packet, write_at, write_list, copy, write_byte, write_bytes, read_uint16, write_uint16,
  read_string, write_string,
}

-- Nothing below the start of a block is written.
write_list_below : (b : Bytes) (p : ℕ) (vs : List ℕ) (i : ℕ) → i < p → write_list b p vs i ≡ b i
unfolding write_list
write_list_below b p [] i l = refl
write_list_below b p (v ∷ vs) i l = ground (arith, write_list_below (write_at b p v) (p + 1) vs i)

copy-write_list : (b : Bytes) (p : ℕ) (vs : List ℕ) → copy (write_list b p vs) p (length vs) ≡ vs
unfolding write_list copy
copy-write_list b p [] = refl
copy-write_list b p (v ∷ vs) = ground (
  arith,
  write_list_below (write_at b p v) (p + 1) vs p,
  copy-write_list (write_at b p v) (p + 1) vs,
)

take_all : (s : Str) → take (length s) s ≡ s
take_all [] = refl
take_all (x ∷ s) = rw (take_all s)

-- The packet with its position set back.
abbrev pub rewind : Packet → ℕ → Packet
rewind p pos = record p { pos = pos }

abbrev written16 : Packet → ℕ → Packet
written16 p word = record p {
  payload = write_at (write_at p.payload p.pos (word / 256)) (p.pos + 1) (word % 256);
  pos = p.pos + 2;
}

module _ (p : Packet) where
  write_uint16_lem :
      (word : ℕ)
      → word < 65536
      → p.pos + 2 < 4294967296
      → p.pos + 2 ≤ p.packet_length
      → write_uint16 p word ≡ some (written16 p word)
  unfolding write_uint16 write_byte
  write_uint16_lem word w b l = ground arith

  read_uint16_lem :
      (word : ℕ)
      → word < 65536
      → p.pos + 2 < 4294967296
      → p.pos + 2 ≤ p.remaining_length
      → p.payload p.pos ≡ word / 256
      → p.payload (p.pos + 1) ≡ word % 256
      → read_uint16 p ≡ some (word, record p { pos = p.pos + 2 })
  unfolding read_uint16
  read_uint16_lem word w b r hi lo = ground arith

abbrev written : Packet → Str → Packet
written p s = record p {
  payload = write_list (written16 p (length s)).payload (p.pos + 2) s;
  pos = p.pos + 2 + length s;
}

module _ (p : Packet) (s : Str) (w : length s < 65536) (b : p.pos + 2 + length s < 4294967296) where
  write_string_lem : p.pos + 2 + length s ≤ p.packet_length → write_string p s ≡ some (written p s)
  unfolding write_string write_bytes
  write_string_lem l =
      ground
        (arith, write_uint16_lem p (length s) (omega arith) (omega arith) (omega arith), take_all s)

  read_string_lem :
      p.pos + 2 + length s ≤ p.remaining_length
      → p.payload p.pos ≡ length s / 256
      → p.payload (p.pos + 1) ≡ length s % 256
      → copy p.payload (p.pos + 2) (length s) ≡ s
      → read_string p ≡ some (s, record p { pos = p.pos + 2 + length s })
  unfolding read_string
  read_string_lem r hi lo c =
      ground
        (arith, read_uint16_lem p (length s) (omega arith) (omega arith) (omega arith) hi lo, c)

-- For a packet and a string shorter than 2^16 that fits with its two bytes of length into the
-- packet and into the remaining length, at positions below 2^32: _mosquitto_write_string succeeds,
-- and _mosquitto_read_string from where the writing began gives the string back and ends where the
-- writing ended.
pub read_string-write_string :
    (p : Packet) (s : Str)
    → length s < 65536
    → p.pos + 2 + length s < 4294967296
    → p.pos + 2 + length s ≤ p.packet_length
    → p.pos + 2 + length s ≤ p.remaining_length
    → (q : Packet) × (write_string p s ≡ some q) × (read_string (rewind q p.pos) ≡ some (s, q))
read_string-write_string p s w b l r = (
  written p s,
  write_string_lem p s w b l,
  read_string_lem (rewind (written p s) p.pos) s w b r (before p.pos (omega arith) ∙ ground arith)
      (before (p.pos + 1) (omega arith) ∙ ground arith)
      (copy-write_list (written16 p (length s)).payload (p.pos + 2) s),
)
  where
    before : (i : ℕ) → i < p.pos + 2 → (written p s).payload i ≡ (written16 p (length s)).payload i
    before = write_list_below (written16 p (length s)).payload (p.pos + 2) s

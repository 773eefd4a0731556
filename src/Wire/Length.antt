-- ===== src/Wire/Length.antt =====
-- The remaining length on the wire: the decoder against the encoder, and a length whose bytes arrive in
-- several runs.
use mathlib.Core.List.{append-nil, append_assoc, flatten}
use opendxl_broker.Prelude.{
  ℕ, ◌+◌, ◌*◌, ◌/◌, ◌%◌, ◌<◌, ◌≤◌, ◌≡◌, ◌↔◌, refl, ap, sym, ◌∙◌, Option, none, some, All, List, [],
  ◌∷◌, ◌++◌, length, arith,
}
use opendxl_broker.Wire.Packet.{
  Bytes, Packet, packet_alloc, u32, encode_loop, Arrival, again, complete, broken, decode_loop,
}

-- The length that has arrived and the bytes behind it.
abbrev pub arrived : Arrival → Option (ℕ × List ℕ)
arrived (complete c m len rest) = some (len, rest)
arrived _ = none

module _ (rest : List ℕ) where
  fourth :
      (n len : ℕ)
      → n < 128
      → len < 2097152
      → arrived (decode_loop 3 2097152 len (encode_loop 2 n ++ rest))
        ≡ some (len + n * 2097152, rest)
  unfolding decode_loop encode_loop
  fourth n len l b = ground arith

  third :
      (n len : ℕ)
      → n < 16384
      → len < 16384
      → arrived (decode_loop 2 16384 len (encode_loop 3 n ++ rest)) ≡ some (len + n * 16384, rest)
  unfolding decode_loop encode_loop
  third n len l b =
      ground (arith, fourth (n / 128) (len + n % 128 * 16384) (omega arith) (omega arith))

  second :
      (n len : ℕ)
      → n < 2097152
      → len < 128
      → arrived (decode_loop 1 128 len (encode_loop 4 n ++ rest)) ≡ some (len + n * 128, rest)
  unfolding decode_loop encode_loop
  second n len l b =
      ground (arith, third (n / 128) (len + n % 128 * 128) (omega arith) (omega arith))

  -- For a remaining length below 2^28 and any bytes behind it: the decoder of
  -- _mosquitto_packet_read reads the digits that _mosquitto_packet_alloc writes as that length,
  -- and leaves the bytes behind them.
  pub decode_loop-encode_loop :
      (n : ℕ)
      → n < 268435456
      → arrived (decode_loop 0 1 0 (encode_loop 5 n ++ rest)) ≡ some (n, rest)
  unfolding decode_loop encode_loop
  decode_loop-encode_loop n l =
      ground (arith, second (n / 128) (n % 128) (omega arith) (omega arith))

-- Reading on where a call has left off.
abbrev pub resume : Arrival → List ℕ → Arrival
resume (again c m len) bs = decode_loop c m len bs
resume (complete c m len rest) bs = complete c m len (rest ++ bs)
resume broken bs = broken

-- Decoding two runs of bytes together is decoding the second from where the first has left off.
decode_loop-resume :
    (xs bs : List ℕ) (c m len : ℕ)
    → decode_loop c m len (xs ++ bs) ≡ resume (decode_loop c m len xs) bs
unfolding decode_loop
decode_loop-resume [] bs c m len = refl
decode_loop-resume (x ∷ xs) bs c m len =
    ground (arith, decode_loop-resume xs bs (c + 1) (u32 (m * 128)) (u32 (len + u32 (x % 128 * m))))

-- A length whose bytes arrive in runs, one for each call of _mosquitto_packet_read.
abbrev pub receive : Arrival → List (List ℕ) → Arrival
receive a [] = a
receive a (bs ∷ runs) = receive (resume a bs) runs

resume-append : (a : Arrival) (xs ys : List ℕ) → resume a (xs ++ ys) ≡ resume (resume a xs) ys
resume-append (again c m len) xs ys = decode_loop-resume xs ys c m len
resume-append (complete c m len rest) xs ys = ap (complete c m len) (sym (append_assoc rest xs ys))
resume-append broken xs ys = refl

resume-nil : (a : Arrival) → resume a [] ≡ a
unfolding decode_loop
resume-nil (again c m len) = refl
resume-nil (complete c m len rest) = ap (complete c m len) (append-nil rest)
resume-nil broken = refl

receive-flatten : (runs : List (List ℕ)) (a : Arrival) → receive a runs ≡ resume a (flatten runs)
unfolding flatten
receive-flatten [] a = sym (resume-nil a)
receive-flatten (bs ∷ runs) a =
    receive-flatten runs (resume a bs) ∙ sym (resume-append a bs (flatten runs))

-- A fifth byte is refused, whatever is behind it.
decode_loop-fifth :
    (b₁ b₂ b₃ b₄ b : ℕ) (bs : List ℕ)
    → All (λ d. 128 ≤ d % 256) (b₁ ∷ b₂ ∷ b₃ ∷ b₄ ∷ [])
    → decode_loop 0 1 0 (b₁ ∷ b₂ ∷ b₃ ∷ b₄ ∷ b ∷ bs) ≡ broken
unfolding decode_loop
decode_loop-fifth b₁ b₂ b₃ b₄ b bs h = ground (arith, h.0, h.1.0, h.1.1.0, h.1.1.1.0)

-- However bytes are cut into runs, one for each call of _mosquitto_packet_read, which goes on from
-- the state that the last one kept: from the digits that _mosquitto_packet_alloc writes for a
-- remaining length below 2^28, with any bytes behind them, the calls read that length and leave
-- those bytes; and five bytes of which the first four say that another follows are refused as a
-- protocol error.
pub receive-encode_loop :
    (n : ℕ) (rest : List ℕ) (runs : List (List ℕ)) (b₁ b₂ b₃ b₄ b : ℕ) (bs : List ℕ)
    (others : List (List ℕ))
    → n < 268435456
    → flatten runs ≡ encode_loop 5 n ++ rest
    → All (λ d. 128 ≤ d % 256) (b₁ ∷ b₂ ∷ b₃ ∷ b₄ ∷ [])
    → flatten others ≡ b₁ ∷ b₂ ∷ b₃ ∷ b₄ ∷ b ∷ bs
    → (arrived (receive (again 0 1 0) runs) ≡ some (n, rest))
      × (receive (again 0 1 0) others ≡ broken)
receive-encode_loop n rest runs b₁ b₂ b₃ b₄ b bs others l e h f = (
  ap arrived (receive-flatten runs (again 0 1 0) ∙ ap (decode_loop 0 1 0) e)
      ∙ decode_loop-encode_loop rest n l,
  receive-flatten others (again 0 1 0)
      ∙ ap (decode_loop 0 1 0) f
      ∙ decode_loop-fifth b₁ b₂ b₃ b₄ b bs h,
)

digits_bound : (n : ℕ) → (length (encode_loop 5 n) ≡ 5) ↔ (268435456 ≤ n)
unfolding encode_loop
digits_bound n = ground arith

-- For any packet: _mosquitto_packet_alloc refuses it exactly if its remaining length is 2^28 or
-- more.
pub packet_alloc_fails :
    (fresh : Bytes) (p : Packet) → (packet_alloc fresh p ≡ none) ↔ (268435456 ≤ p.remaining_length)
unfolding packet_alloc
packet_alloc_fails fresh p = ground (arith, digits_bound p.remaining_length)

-- ===== src/Protocol/Varint/Limits.antt =====
-- What `decode_varint` answers on any bytes.
use silkjam.Prelude.{
  ℕ, ◌+◌, ◌*◌, ◌^◌, ◌≤◌, ◌<◌, ◌≡◌, ◌↔◌, [], ◌∷◌, ◌++◌, bit_and, bit_or, length, All, arith,
}
use silkjam.Prelude.Int.{ℤ}
use silkjam.Prelude.Bits.{bit_and_mask, bit_and_top}
use silkjam.Protocol.Result.{ok, err, incomplete}
use silkjam.Protocol.Bytes.{Bytes, IsByte}
use silkjam.Protocol.Varint.{IsInt32, decode_varint_loop, decode_varint}

-- The continuation bit is set.
abbrev pub GoesOn : ℕ → Type 0
GoesOn b = 128 ≤ b

decode_loop_takes :
    (bytes : Bytes) (i num n : ℕ) (v : ℤ)
    → decode_varint_loop bytes i num ≡ ok (n, v)
    → (i < n) × (n ≤ 5) × (n ≤ i + length bytes) × IsInt32 v
unfolding decode_varint_loop
decode_loop_takes [] i num n v e = ground arith
decode_loop_takes (b ∷ bytes) i num n v e =
    let num' : ℕ = bit_or num (bit_and b 0x7f * 2 ^ (7 * i)) in
    ground (arith, decode_loop_takes bytes (i + 1) num' n v, bit_and_mask 32 num')

-- A decoded VarInt took one to five bytes, all of them there, and is a signed number of 32 bits.
decode_varint_takes :
    (bytes : Bytes) (n : ℕ) (v : ℤ)
    → decode_varint bytes ≡ ok (n, v)
    → (1 ≤ n) × (n ≤ 5) × (n ≤ length bytes) × IsInt32 v
unfolding decode_varint
decode_varint_takes bytes n v e = ground (arith, decode_loop_takes bytes 0 0 n v)

decode_loop-append :
    (bytes more : Bytes) (i num n : ℕ) (v : ℤ)
    → decode_varint_loop bytes i num ≡ ok (n, v)
    → decode_varint_loop (bytes ++ more) i num ≡ ok (n, v)
unfolding decode_varint_loop
decode_loop-append [] more i num n v e = ground arith
decode_loop-append (b ∷ bytes) more i num n v e =
    ground
      (arith, decode_loop-append bytes more (i + 1) (bit_or num (bit_and b 0x7f * 2 ^ (7 * i))) n v)

-- Bytes that arrive behind a complete VarInt do not change it.
pub decode_varint-append :
    (bytes more : Bytes) (n : ℕ) (v : ℤ)
    → decode_varint bytes ≡ ok (n, v)
    → decode_varint (bytes ++ more) ≡ ok (n, v)
unfolding decode_varint
decode_varint-append bytes more n v e = decode_loop-append bytes more 0 0 n v e

-- At index `i`: more bytes are wanted exactly if all bytes so far go on and there are not yet five.
decode_loop_incomplete :
    (bytes : Bytes) (i num : ℕ)
    → All IsByte bytes
    → i + length bytes < 5
    → All GoesOn bytes
    → decode_varint_loop bytes i num ≡ err incomplete
unfolding decode_varint_loop
decode_loop_incomplete [] i num hb hl hg = ground arith
decode_loop_incomplete (b ∷ bytes) i num hb hl hg = ground (
  arith,
  bit_and_top b,
  decode_loop_incomplete bytes (i + 1) (bit_or num (bit_and b 0x7f * 2 ^ (7 * i))) hb.1,
)

decode_loop_wants :
    (bytes : Bytes) (i num : ℕ)
    → All IsByte bytes
    → decode_varint_loop bytes i num ≡ err incomplete
    → (i + length bytes < 5) × All GoesOn bytes
unfolding decode_varint_loop
decode_loop_wants [] i num hb e = ground arith
decode_loop_wants (b ∷ bytes) i num hb e = ground (
  arith,
  bit_and_top b,
  decode_loop_wants bytes (i + 1) (bit_or num (bit_and b 0x7f * 2 ^ (7 * i))) hb.1,
)

-- `decode_varint` asks for more input exactly while fewer than five bytes are there and each of
-- them has its continuation bit set.
decode_varint_incomplete :
    (bytes : Bytes)
    → All IsByte bytes
    → (decode_varint bytes ≡ err incomplete) ↔ ((length bytes < 5) × All GoesOn bytes)
unfolding decode_varint
decode_varint_incomplete bytes hb = (
  λ e. ground (arith, decode_loop_wants bytes 0 0 hb e),
  λ h. ground (arith, decode_loop_incomplete bytes 0 0 hb (omega arith) h.1),
)

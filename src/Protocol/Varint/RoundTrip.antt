-- ===== src/Protocol/Varint/RoundTrip.antt =====
-- `decode_varint` reads back what `encode_varint` wrote.
use silkjam.Prelude.{
  ℕ, zero, suc, ◌+◌, ◌-◌, ◌*◌, ◌/◌, ◌%◌, ◌^◌, ◌≤◌, ◌<◌, ◌≡◌, refl, ap, ◌∙◌, ◌∷◌, ◌++◌, bit_or,
  length, arith,
}
use silkjam.Prelude.Int.{ℤ, pos, negsuc}
use silkjam.Prelude.Bits.{bit_and_mask, bit_and_top, bit_or_shifted}
use silkjam.Protocol.Result.{ok}
use silkjam.Protocol.Bytes.{Bytes}
use silkjam.Protocol.Varint.{
  IsInt32, signed32, decode_varint_loop, decode_varint, encode_varint_loop, encode_varint,
}
use native.Mathlib.Nat.{div-add-mod}
use native.Mathlib.Numerals.{towards_suc}

-- The continuation bit: a group of seven bits with 128 added.
inner_byte : (g : ℕ) → g < 128 → bit_or g 0x80 ≡ g + 128
inner_byte g h = bit_or_shifted 7 g 1 h

pow_shift : (i : ℕ) → 2 ^ (7 * (i + 1)) ≡ 128 * 2 ^ (7 * i)
pow_shift i =
    ap (λ (t : ℕ). 2 ^ t) (let e : 7 * (i + 1) ≡ 7 * i + 7 = omega arith in e)
    ∙ simp towards_suc (omega arith)

decode_last :
    (i num w : ℕ) (rest : Bytes)
    → i < 5
    → w < 128
    → num < 2 ^ (7 * i)
    → decode_varint_loop (w ∷ rest) i num ≡ ok (i + 1, signed32 ((num + w * 2 ^ (7 * i)) % 2 ^ 32))
unfolding decode_varint_loop
decode_last i num w rest hi hw hn = ground (
  arith,
  bit_and_mask 7 w,
  bit_and_top w,
  bit_or_shifted (7 * i) num w,
  bit_and_mask 32 (num + w * 2 ^ (7 * i)),
)

decode_inner :
    (i num g : ℕ) (rest : Bytes)
    → i < 5
    → g < 128
    → num < 2 ^ (7 * i)
    → decode_varint_loop ((g + 128) ∷ rest) i num
      ≡ decode_varint_loop rest (i + 1) (num + g * 2 ^ (7 * i))
unfolding decode_varint_loop
decode_inner i num g rest hi hg hn =
    ground (arith, bit_and_mask 7 (g + 128), bit_and_top (g + 128), bit_or_shifted (7 * i) num g)

split_group : (w i : ℕ) → w * 2 ^ (7 * i) ≡ w % 128 * 2 ^ (7 * i) + w / 128 * 2 ^ (7 * (i + 1))
split_group w i = omega (
  arith,
  ap (λ (t : ℕ). t * 2 ^ (7 * i)) (div-add-mod w 128),
  ap (λ (t : ℕ). w / 128 * t) (pow_shift i),
)

group_fits : (num g i : ℕ) → num < 2 ^ (7 * i) → g < 128 → num + g * 2 ^ (7 * i) < 2 ^ (7 * (i + 1))
group_fits num g i hn hg = grind (arith, pow_shift i)

-- From byte `i` on, with `w` still to be written and at most `k` groups after the first.
decode-encode_loop :
    (k fuel w i num : ℕ) (rest : Bytes)
    → w < 128 ^ suc k
    → i + k < 5
    → w < fuel
    → num < 2 ^ (7 * i)
    → decode_varint_loop (encode_varint_loop fuel w ++ rest) i num
      ≡ ok (i + length (encode_varint_loop fuel w), signed32 ((num + w * 2 ^ (7 * i)) % 2 ^ 32))
unfolding encode_varint_loop
decode-encode_loop k zero w i num rest hw hk hf hn = absurd (omega arith)
decode-encode_loop zero (suc fuel) w i num rest hw hk hf hn =
    ground (arith, bit_and_mask 7 w, decode_last i num w rest)
decode-encode_loop (suc k) (suc fuel) w i num rest hw hk hf hn = ground (
  arith,
  bit_and_mask 7 w,
  inner_byte (w % 128),
  decode_last i num w rest,
  decode_inner i num (w % 128) (encode_varint_loop fuel (w / 128) ++ rest),
  split_group w i,
  group_fits num (w % 128) i,
  decode-encode_loop k fuel (w / 128) (i + 1) (num + w % 128 * 2 ^ (7 * i)) rest (omega arith),
)

-- The bit pattern that `encode_varint` writes, and its bytes.
abbrev pub unsigned32 : ℤ → ℕ
unsigned32 (pos n) = n
unsigned32 (negsuc n) = 2 ^ 32 - suc n

unfoldable pub varint : ℤ → Bytes
unfolding encode_varint_loop
varint v = encode_varint_loop (suc (unsigned32 v)) (unsigned32 v)

pub encode_varint-varint : (v : ℤ) → IsInt32 v → encode_varint v ≡ ok (varint v)
unfolding encode_varint varint
encode_varint-varint (pos n) h = refl
encode_varint-varint (negsuc n) h = ground arith

-- On every value of 32 bits, negative ones too, the bytes that `encode_varint` wrote decode to
-- that value, whatever follows them, and the number of bytes read is the number written.
pub decode-varint :
    (v : ℤ) (rest : Bytes)
    → IsInt32 v
    → decode_varint (varint v ++ rest) ≡ ok (length (varint v), v)
unfolding decode_varint varint
decode-varint (pos n) rest h = ground (arith, decode-encode_loop 4 (suc n) n 0 0 rest)
decode-varint (negsuc n) rest h =
    let w : ℕ = 2 ^ 32 - suc n in ground (arith, decode-encode_loop 4 (suc w) w 0 0 rest)

length-loop :
    (k fuel w : ℕ)
    → w < 128 ^ suc k
    → w < fuel
    → (1 ≤ length (encode_varint_loop fuel w)) × (length (encode_varint_loop fuel w) ≤ suc k)
unfolding encode_varint_loop
length-loop k zero w hw hf = absurd (omega arith)
length-loop zero (suc fuel) w hw hf = ground arith
length-loop (suc k) (suc fuel) w hw hf = ground (arith, length-loop k fuel (w / 128) (omega arith))

-- A value of 32 bits takes one to five bytes.
pub length-varint : (v : ℤ) → IsInt32 v → (1 ≤ length (varint v)) × (length (varint v) ≤ 5)
unfolding varint
length-varint (pos n) h = length-loop 4 (suc n) n (omega arith) (omega arith)
length-varint (negsuc n) h =
    length-loop 4 (suc (2 ^ 32 - suc n)) (2 ^ 32 - suc n) (omega arith) (omega arith)

-- Every value of 32 bits, negative ones too, is encoded in one to five bytes, and `decode_varint`
-- reads it back from the front of any stream and counts exactly those bytes.
pub varint_round_trip :
    (v : ℤ) (rest : Bytes)
    → IsInt32 v
    → (bytes : Bytes) × (encode_varint v ≡ ok bytes)
      × (1 ≤ length bytes)
      × (length bytes ≤ 5)
      × (decode_varint (bytes ++ rest) ≡ ok (length bytes, v))
varint_round_trip v rest h =
    let (lo, hi) = length-varint v h in
    (varint v, encode_varint-varint v h, lo, hi, decode-varint v rest h)

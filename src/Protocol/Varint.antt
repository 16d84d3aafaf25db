-- ===== src/Protocol/Varint.antt =====
-- `PacketReader.decode_varint` and `PacketWriter.encode_varint` of app/backend/core/protocol.py.
pub mod RoundTrip
pub mod Limits
use silkjam.Prelude.{
  ℕ, zero, suc, ◌+◌, ◌-◌, ◌*◌, ◌/◌, ◌^◌, List, [], ◌∷◌, bit_and, bit_or, ltb, leb, ◌==◌,
  if◌then◌else◌,
}
use silkjam.Prelude.Int.{ℤ, pos, negsuc, ◌≤ℤ◌}
use silkjam.Protocol.Result.{Result, ok, err, protocol, incomplete, endless}
use silkjam.Protocol.Bytes.{Bytes}

-- The signed number that a pattern of 32 bits stands for: `if num >= 1 << 31: num -= 1 << 32`.
abbrev pub signed32 : ℕ → ℤ
signed32 w = if leb (2 ^ 31) w then negsuc (2 ^ 32 - w - 1) else pos w

-- The loop of `decode_varint` at index `i`, over the bytes from that index on.
unfoldable pub decode_varint_loop : Bytes → ℕ → ℕ → Result (ℕ × ℤ)
decode_varint_loop [] i num = if ltb 5 (i + 1) then err protocol else err incomplete
decode_varint_loop (b ∷ rest) i num =
    let num' = bit_or num (bit_and b 0x7f * 2 ^ (7 * i)) in
    let more = decode_varint_loop rest (i + 1) num' in
    if ltb 5 (i + 1)
    then err protocol
    else if bit_and b 0x80 == 0
    then ok (i + 1, signed32 (bit_and num' 0xffff_ffff))
    else more

-- The values that fit a VarInt.
abbrev pub IsInt32 : ℤ → Type 0
IsInt32 v = (negsuc (2 ^ 31 - 1) ≤ℤ v) × (v ≤ℤ pos (2 ^ 31 - 1))

unfoldable pub decode_varint : Bytes → Result (ℕ × ℤ)
unfolding decode_varint_loop
decode_varint bytes = decode_varint_loop bytes 0 0

-- The loop of `encode_varint` on a value that is not negative. `value >>= 7` makes it smaller
-- until it is 0, so `suc value` rounds are enough.
unfoldable pub encode_varint_loop : ℕ → ℕ → Bytes
encode_varint_loop zero value = []
encode_varint_loop (suc fuel) value =
    let temp = bit_and value 0x7f in
    let rest = encode_varint_loop fuel (value / 2 ^ 7) in
    if value / 2 ^ 7 == 0 then temp ∷ [] else bit_or temp 0x80 ∷ rest

-- A value below -2^32 is still negative after the addition, and shifting it never gives 0.
unfoldable pub encode_varint : ℤ → Result Bytes
unfolding encode_varint_loop
encode_varint (pos n) = ok (encode_varint_loop (suc n) n)
encode_varint (negsuc n) =
    let value = 2 ^ 32 - suc n in
    if leb (suc n) (2 ^ 32) then ok (encode_varint_loop (suc value) value) else err endless

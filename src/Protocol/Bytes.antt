-- ===== src/Protocol/Bytes.antt =====
-- Byte strings as lists of numbers: Python's slices, and the formats of `struct` that
-- app/backend/core/protocol.py uses.
pub mod Laws
use silkjam.Prelude.{
  ℕ, zero, suc, ◌+◌, ◌-◌, ◌*◌, ◌/◌, ◌%◌, ◌^◌, ◌<◌, Bool, true, false, ◌&&◌, List, [], ◌∷◌, ◌++◌,
  length, take, drop, min, ltb, ◌==◌, if◌then◌else◌,
}
use silkjam.Prelude.Int.{ℤ, pos, negsuc}
use silkjam.Protocol.Result.{Result, ok, err, struct_error}

abbrev pub Bytes : Type 0
Bytes = List ℕ

abbrev pub IsByte : ℕ → Type 0
IsByte b = b < 256

-- A slice's bound, as Python reads it over a string of `n` bytes: a negative one counts from the
-- end, and either stops at the ends of the string.
abbrev pub clip : ℕ → ℤ → ℕ
clip n (pos i) = min i n
clip n (negsuc i) = n - suc i

-- `bytes[i:j]`
unfoldable pub slice : Bytes → ℤ → ℤ → Bytes
slice bytes i j =
    let a = clip (length bytes) i in let b = clip (length bytes) j in take (b - a) (drop a bytes)

-- `bytes[i:]`
unfoldable pub slice_from : Bytes → ℤ → Bytes
slice_from bytes i = drop (clip (length bytes) i) bytes

-- `a == b` on byte strings, and on texts as lists of code points.
unfoldable pub bytes_eq : List ℕ → List ℕ → Bool
bytes_eq [] [] = true
bytes_eq [] (y ∷ ys) = false
bytes_eq (x ∷ xs) [] = false
bytes_eq (x ∷ xs) (y ∷ ys) = (x == y) && bytes_eq xs ys

-- The number that big-endian bytes stand for.
unfoldable pub big_endian : ℕ → Bytes → ℕ
big_endian acc [] = acc
big_endian acc (b ∷ bs) = big_endian (acc * 256 + b) bs

-- The low `k` bytes of `n`, highest first.
unfoldable pub to_big_endian : ℕ → ℕ → Bytes
to_big_endian zero n = []
to_big_endian (suc k) n = (n / 256 ^ k % 256) ∷ to_big_endian k n

-- `struct.unpack` of one unsigned field of `k` bytes: ">B", ">H", ">I".
unfoldable pub unpack : ℕ → Bytes → Result ℕ
unpack k bytes = if length bytes == k then ok (big_endian 0 bytes) else err struct_error

-- `struct.pack` of one unsigned field of `k` bytes.
unfoldable pub pack : ℕ → ℕ → Result Bytes
pack k n = if ltb n (256 ^ k) then ok (to_big_endian k n) else err struct_error

-- The signed number that a pattern of 64 bits stands for.
abbrev pub signed64 : ℕ → ℤ
signed64 w = if ltb w (2 ^ 63) then pos w else negsuc (2 ^ 64 - w - 1)

-- `struct.unpack(">q", bytes)[0]`
unfoldable pub unpack_q : Bytes → Result ℤ
unpack_q bytes = if length bytes == 8 then ok (signed64 (big_endian 0 bytes)) else err struct_error

-- `struct.pack(">q", value)`
unfoldable pub pack_q : ℤ → Result Bytes
pack_q (pos n) = if ltb n (2 ^ 63) then ok (to_big_endian 8 n) else err struct_error
pack_q (negsuc n) =
    if ltb n (2 ^ 63) then ok (to_big_endian 8 (2 ^ 64 - suc n)) else err struct_error

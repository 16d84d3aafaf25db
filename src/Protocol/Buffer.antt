-- ===== src/Protocol/Buffer.antt =====
-- `PacketReader._allocate_buffer` of app/backend/core/protocol.py, which makes room in the receive
-- buffer, and the views `unparsed` and `saved`.
pub mod Allocation
use silkjam.Prelude.{
  ℕ, ◌+◌, ◌-◌, ◌*◌, ◌/◌, ◌^◌, Bool, List, [], ◌∷◌, ◌++◌, length, take, drop, replicate, min, max,
  ltb, ◌==◌, if◌then◌else◌,
}
use silkjam.Prelude.Int.{ℤ, pos, ◌-ℤ◌, ltb_ℤ}
use silkjam.Protocol.Result.{Result, ok, err, value_error, ◌>>=◌}
use silkjam.Protocol.Bytes.{Bytes, clip, slice}

abbrev pub default_buffer_size : ℕ
default_buffer_size = 4096

abbrev pub max_buffer_size : ℕ
max_buffer_size = 2 ^ 23

abbrev pub min_read_size : ℕ
min_read_size = 1024

-- The buffer of `n` bytes with the start of the unparsed, the unread and the saved bytes.
pub record Buffer : Type 0 where
  pub bytes : Bytes
  pub i : ℤ
  pub j : ℤ
  pub k : ℤ
  pub n : ℕ

abbrev pub unparsed : Buffer → Bytes
unparsed b = slice b.bytes b.i b.j

abbrev pub saved : Buffer → Bytes
saved b = slice b.bytes b.k b.j

-- `view[i:j] = source` on a memoryview: the lengths must agree, else it raises `ValueError`.
unfoldable pub assign : Bytes → ℤ → ℤ → Bytes → Result Bytes
assign view i j source =
    let a = clip (length view) i in
    let room = clip (length view) j - a in
    if length source == room
    then ok (take a view ++ (source ++ drop (a + room) view))
    else err value_error

-- The size of the new buffer for `occupied` bytes.
unfoldable pub new_size : ℤ → ℕ → ℕ
new_size occupied n =
    if ltb_ℤ occupied (pos (n - n / 2 ^ 2))
    then max (n / 2) default_buffer_size
    else if ltb_ℤ (pos n -ℤ pos min_read_size) occupied
    then min (n * 2) max_buffer_size
    else n

unfoldable pub allocate_buffer : Buffer → Bool → Result Buffer
allocate_buffer b save = do
  let k = (if save then b.k else b.i)
  let n = new_size (b.j -ℤ k) b.n
  bytes ← assign (replicate n 0) (pos 0) (b.j -ℤ k) (slice b.bytes k b.j)
  ok (record { bytes = bytes; i = b.i -ℤ k; j = b.j -ℤ k; k = k; n = n })

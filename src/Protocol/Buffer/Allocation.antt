-- ===== src/Protocol/Buffer/Allocation.antt =====
-- When an allocation keeps the unparsed bytes, and when it fails.
use silkjam.Prelude.{
  ℕ, ◌-◌, ◌/◌, ◌≤◌, ◌<◌, ◌≡◌, refl, ap, false, [], ◌++◌, length, drop, replicate, length-take,
  length-drop, length-replicate, length-append, min, arith,
}
use silkjam.Prelude.Int.{ℤ, pos, pos-sub}
use silkjam.Protocol.Result.{ok, err, value_error}
use silkjam.Protocol.Bytes.{Bytes, slice}
use silkjam.Protocol.Bytes.Laws.{slice-append}
use silkjam.Protocol.Buffer.{Buffer, unparsed, assign, new_size, allocate_buffer}

-- A buffer by its marks.
abbrev pub marked : Bytes → ℕ → ℕ → ℤ → ℕ → Buffer
marked bytes i j k n = record { bytes = bytes; i = pos i; j = pos j; k = k; n = n }

length-slice :
    (bytes : Bytes) (i j : ℕ)
    → i ≤ j
    → j ≤ length bytes
    → length (slice bytes (pos i) (pos j)) ≡ j - i
unfolding slice
length-slice bytes i j h k = omega (
  arith,
  length-take (min j (length bytes) - min i (length bytes)) (drop (min i (length bytes)) bytes),
  length-drop (min i (length bytes)) bytes,
)

-- The assignment to the front of a fresh buffer.
assign_front :
    (n m : ℕ) (source : Bytes)
    → length source ≡ m
    → m ≤ n
    → assign (replicate n 0) (pos 0) (pos m) source ≡ ok (source ++ drop m (replicate n 0))
unfolding assign
assign_front n m source h le = ground (arith, length-replicate {A = ℕ} n 0)

assign_fails :
    (n m : ℕ) (source : Bytes)
    → length source ≡ m
    → n < m
    → assign (replicate n 0) (pos 0) (pos m) source ≡ err value_error
unfolding assign
assign_fails n m source h lt = ground (arith, length-replicate {A = ℕ} n 0)

-- The unparsed bytes before zeros.
pub allocate_moves :
    (bytes : Bytes) (i j : ℕ) (k : ℤ) (n : ℕ)
    → i ≤ j
    → j ≤ length bytes
    → j - i ≤ new_size (pos (j - i)) n
    → allocate_buffer (marked bytes i j k n) false
      ≡ ok (
          marked
            (slice bytes (pos i) (pos j) ++ drop (j - i) (replicate (new_size (pos (j - i)) n) 0))
            0
            (j - i)
            (pos i)
            (new_size (pos (j - i)) n))
unfolding allocate_buffer
allocate_moves bytes i j k n order inside room =
    let size = new_size (pos (j - i)) n in
    let source = slice bytes (pos i) (pos j) in
    let width : length source ≡ j - i = length-slice bytes i j order inside in
    let free : Bytes = drop (j - i) (replicate size 0) in
    rw (pos-sub j i order, pos-sub i i (omega arith), assign_front size (j - i) source width room)
      (ap (λ t. ok (marked (source ++ free) t (j - i) (pos i) size)) (omega arith))

-- Where the unparsed bytes `i..j` lie in order in a buffer of `n` bytes, an allocation that finds
-- room for them in the new buffer moves them to its front, keeps them, and gives it its size.
allocate_keeps :
    (bytes : Bytes) (i j : ℕ) (k : ℤ) (n : ℕ)
    → length bytes ≡ n
    → i ≤ j
    → j ≤ n
    → j - i ≤ new_size (pos (j - i)) n
    → (new : Bytes) × (allocate_buffer (marked bytes i j k n) false
        ≡ ok (marked new 0 (j - i) (pos i) (new_size (pos (j - i)) n)))
      × (length new ≡ new_size (pos (j - i)) n)
      × (unparsed (marked new 0 (j - i) (pos i) (new_size (pos (j - i)) n))
          ≡ unparsed (marked bytes i j k n))
allocate_keeps bytes i j k n full order inside room =
    let size = new_size (pos (j - i)) n in
    let source = slice bytes (pos i) (pos j) in
    let width : length source ≡ j - i = length-slice bytes i j order (omega arith) in
    let free : Bytes = drop (j - i) (replicate size 0) in
    (
      source ++ free,
      allocate_moves bytes i j k n order (omega arith) room,
      omega (
        arith,
        length-append source free,
        length-drop {A = ℕ} (j - i) (replicate size 0),
        length-replicate {A = ℕ} size 0,
        width,
      ),
      slice-append [] source free (pos 0) (pos (j - i)) refl (ap pos (omega (arith, width))),
    )

-- Where the new buffer is smaller than the unparsed bytes, the allocation raises `ValueError`.
pub allocate_fails :
    (bytes : Bytes) (i j : ℕ) (k : ℤ) (n : ℕ)
    → length bytes ≡ n
    → i ≤ j
    → j ≤ n
    → new_size (pos (j - i)) n < j - i
    → allocate_buffer (marked bytes i j k n) false ≡ err value_error
unfolding allocate_buffer
allocate_fails bytes i j k n full order inside small = rw (
  pos-sub j i order,
  assign_fails (new_size (pos (j - i)) n) (j - i) (slice bytes (pos i) (pos j))
      (length-slice bytes i j order (omega arith)) small,
)

-- In a buffer of at least 8 KiB, unparsed bytes that fill more than half of it and less than three
-- quarters are to go into half of it: the allocation fails, although they fit the old buffer.
pub halving_fails :
    (bytes : Bytes) (i j : ℕ) (k : ℤ) (n : ℕ)
    → length bytes ≡ n
    → i ≤ j
    → j ≤ n
    → 8192 ≤ n
    → n / 2 < j - i
    → j - i < n - n / 4
    → allocate_buffer (marked bytes i j k n) false ≡ err value_error
halving_fails bytes i j k n full order inside large more less =
    allocate_fails bytes i j k n full order inside (unfold new_size in ground arith)

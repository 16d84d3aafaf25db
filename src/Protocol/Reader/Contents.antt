-- ===== src/Protocol/Reader/Contents.antt =====
-- The unparsed bytes of a buffer as its contents, and what the operations on a buffer do to them.
use silkjam.Prelude.{
  ℕ, suc, ◌+◌, ◌-◌, ◌≤◌, ◌<◌, ◌≡◌, refl, sym, ap, ap₂, ◌∙◌, false, [], ◌∷◌, ◌++◌, length,
  length-append, length-replicate, length-drop, drop, take-append, append_assoc, append-nil, min,
  arith, replicate,
}
use silkjam.Prelude.Int.{ℤ, pos, ◌+ℤ◌, ◌-ℤ◌, pos-+}
use silkjam.Protocol.Result.{ok}
use silkjam.Protocol.Bytes.{Bytes, slice}
use silkjam.Protocol.Bytes.Laws.{slice-append}
use silkjam.Protocol.Buffer.{Buffer, unparsed, assign, new_size, allocate_buffer}
use silkjam.Protocol.Buffer.Allocation.{marked, allocate_moves}

-- The parsed bytes, the contents and the free space, in a buffer of at least the default size.
pub record Holds (b : Buffer) (contents : Bytes) : Type 0 where
  pub front : Bytes
  pub free : Bytes
  pub parts : b.bytes ≡ front ++ (contents ++ free)
  pub at_i : b.i ≡ pos (length front)
  pub at_j : b.j ≡ pos (length front + length contents)
  pub full : b.n ≡ length front + (length contents + length free)
  pub large : 4096 ≤ b.n

pub unparsed-Holds : (b : Buffer) (contents : Bytes) → Holds b contents → unparsed b ≡ contents
unparsed-Holds b contents h =
    rw (h.parts, h.at_i, h.at_j)
      (slice-append h.front contents h.free (pos (length h.front))
        (pos (length h.front + length contents)) refl refl)

drop_past : (xs ys : Bytes) (m : ℕ) → drop (length xs + m) (xs ++ ys) ≡ drop m ys
drop_past [] ys m = let e : 0 + m ≡ m = omega arith in ap (λ n. drop n ys) e
drop_past (x ∷ xs) ys m =
    let e : suc (length xs) + m ≡ suc (length xs + m) = omega arith in
    ap (λ n. drop n (x ∷ (xs ++ ys))) e ∙ drop_past xs ys m

-- An assignment behind the contents.
assign_behind :
    (xs ys new : Bytes)
    → length new ≤ length ys
    → assign (xs ++ ys) (pos (length xs)) (pos (length xs + length new)) new
      ≡ ok (xs ++ (new ++ drop (length new) ys))
unfolding assign
assign_behind xs ys new h =
    let whole = length-append xs ys in
    let start : min (length xs) (length (xs ++ ys)) ≡ length xs = omega (arith, whole) in
    let stop : min (length xs + length new) (length (xs ++ ys)) ≡ length xs + length new =
      omega (arith, whole, h) in
    let room : length xs + length new - length xs ≡ length new = omega arith in
    rw (start, stop, room, take-append xs ys, drop_past xs ys (length new)) (ground arith)

pub store-Holds :
    (b : Buffer) (contents new : Bytes) (h : Holds b contents)
    → length new ≤ length h.free
    → (bytes : Bytes) × (assign b.bytes b.j (b.j +ℤ pos (length new)) new ≡ ok bytes)
      × Holds (record b { bytes = bytes; j = b.j +ℤ pos (length new) }) (contents ++ new)
store-Holds b contents new h room =
    let before = h.front ++ contents in
    let size : length before ≡ length h.front + length contents = length-append h.front contents in
    let rest = drop (length new) h.free in
    let stop : b.j +ℤ pos (length new) ≡ pos (length before + length new) =
      ap (λ j. j +ℤ pos (length new)) (h.at_j ∙ ap pos (sym size))
      ∙ pos-+ (length before) (length new) in
    (
      before ++ (new ++ rest),
      ap₂ (λ v i. assign v i (b.j +ℤ pos (length new)) new)
            (h.parts ∙ sym (append_assoc h.front contents h.free)) (h.at_j ∙ ap pos (sym size))
          ∙ ap (λ j. assign (before ++ h.free) (pos (length before)) j new) stop
          ∙ assign_behind before h.free new room,
      record {
        front = h.front;
        free = rest;
        parts =
            append_assoc h.front contents (new ++ rest)
            ∙ ap (λ x. h.front ++ x) (sym (append_assoc contents new rest));
        at_i = h.at_i;
        at_j = stop ∙ ap pos (omega (arith, size, length-append contents new));
        full = omega (
          arith,
          h.full,
          size,
          length-append contents new,
          length-drop (length new) h.free,
          room,
        );
        large = h.large;
      },
    )

pub advance-Holds :
    (b : Buffer) (p rest : Bytes)
    → Holds b (p ++ rest)
    → Holds (record b { i = b.i +ℤ pos (length p) }) rest
advance-Holds b p rest h = record {
  front = h.front ++ p;
  free = h.free;
  parts =
      h.parts
      ∙ ap (λ x. h.front ++ x) (append_assoc p rest h.free)
      ∙ sym (append_assoc h.front p (rest ++ h.free));
  at_i =
      ap (λ i. i +ℤ pos (length p)) h.at_i
      ∙ pos-+ (length h.front) (length p)
      ∙ ap pos (sym (length-append h.front p));
  at_j = h.at_j ∙ ap pos (omega (arith, length-append h.front p, length-append p rest));
  full = omega (arith, h.full, length-append h.front p, length-append p rest);
  large = h.large;
}

enough_space : (c n : ℕ) → c < 4096 → 4096 ≤ n → 4096 ≤ new_size (pos c) n
unfolding new_size ◌-ℤ◌
enough_space c n small large = ground (arith, small, large)

-- An allocation for contents that the smallest buffer holds.
allocate_marked-Holds :
    (bytes contents : Bytes) (i j : ℕ) (k : ℤ) (n : ℕ)
    → i ≤ j
    → j ≤ length bytes
    → j - i ≡ length contents
    → slice bytes (pos i) (pos j) ≡ contents
    → length contents < 4096
    → 4096 ≤ n
    → (b : Buffer) × (allocate_buffer (marked bytes i j k n) false ≡ ok b)
      × (h : Holds b contents) × (1 ≤ length h.free)
allocate_marked-Holds bytes contents i j k n order inside occupied source small large =
    let size = new_size (pos (length contents)) n in
    let enough : 4096 ≤ size = enough_space (length contents) n small large in
    let space : j - i ≤ new_size (pos (j - i)) n = rw occupied (omega (arith, enough, small)) in
    let free : Bytes = drop (length contents) (replicate size 0) in
    let free_size : length free ≡ size - length contents =
      length-drop {A = ℕ} (length contents) (replicate size 0)
      ∙ ap (λ m. m - length contents) (length-replicate {A = ℕ} size 0) in
    (
      marked (contents ++ free) 0 (length contents) (pos i) size,
      allocate_moves bytes i j k n order inside space
          ∙ ap₂
              (λ v m. ok (
                marked (v ++ drop m (replicate (new_size (pos m) n) 0)) 0 m (pos i)
                  (new_size (pos m) n)))
              source occupied,
      record {
        front = [];
        free = free;
        parts = refl;
        at_i = refl;
        at_j = ap pos (omega arith);
        full = omega (arith, free_size, enough, small);
        large = enough;
      },
      omega (arith, free_size, enough, small),
    )

pub allocate-Holds :
    (b : Buffer) (contents : Bytes)
    → Holds b contents
    → length contents < 4096
    → (b' : Buffer) × (allocate_buffer b false ≡ ok b')
      × (h : Holds b' contents) × (1 ≤ length h.free)
allocate-Holds b contents h small =
    let i = length h.front in
    let j = i + length contents in
    let inside : j ≤ length b.bytes = omega (
      arith,
      ap length h.parts,
      length-append h.front (contents ++ h.free),
      length-append contents h.free,
    ) in
    let source : slice b.bytes (pos i) (pos j) ≡ contents =
      ap (λ v. slice v (pos i) (pos j)) h.parts
      ∙ slice-append h.front contents h.free (pos i) (pos j) refl refl in
    let (b', allocated, holds, room) =
      allocate_marked-Holds b.bytes contents i j b.k b.n (omega arith) inside (omega arith) source
        small h.large in
    (
      b',
      ap₂ (λ i j. allocate_buffer (record b { i = i; j = j }) false) h.at_i h.at_j ∙ allocated,
      holds,
      room,
    )

-- The buffer of a reader that starts with some bytes.
pub first-Holds :
    (initial : Bytes)
    → length initial < 4096
    → (b : Buffer) × (allocate_buffer (marked initial 0 (length initial) (pos 0) 4096) false ≡ ok b)
      × Holds b initial
first-Holds initial small =
    let c = length initial in
    let source : slice initial (pos 0) (pos c) ≡ initial =
      ap (λ v. slice v (pos 0) (pos c)) (sym (append-nil initial))
      ∙ slice-append [] initial [] (pos 0) (pos c) refl (ap pos (omega arith)) in
    let (b, allocated, holds, room) =
      allocate_marked-Holds initial initial 0 c (pos 0) 4096 (omega arith) (omega arith)
        (omega arith) source small (omega arith) in
    (b, allocated, holds)

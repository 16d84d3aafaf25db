-- ===== src/Protocol/Reader/Receive.antt =====
-- What `receive` does to a buffer whose contents the smallest buffer holds.
use silkjam.Prelude.{
  ℕ, inl, inr, ◌+◌, ◌≤◌, ◌<◌, ◌≡◌, refl, sym, subst, ap, ◌∙◌, false, List, [], ◌∷◌, ◌++◌, length,
  take, drop, length-take, take-append-drop, length-drop, append_assoc, All, concat, leb,
  Bool-cases, arith,
}
use silkjam.Prelude.Int.{pos, ◌+ℤ◌, ◌-ℤ◌, ltb_ℤ, pos_part, eq_ℤ, pos-sub}
use silkjam.Protocol.Result.{Result, ok}
use silkjam.Protocol.Bytes.{Bytes}
use silkjam.Protocol.Buffer.{Buffer, allocate_buffer}
use silkjam.Protocol.Reader.{PacketReader, read_some, store_read, read_into, receive}
use silkjam.Protocol.Reader.Contents.{Holds, store-Holds, allocate-Holds}

abbrev pub Nonempty : Bytes → Type 0
Nonempty bytes = 1 ≤ length bytes

-- A read of at least a byte from a stream that is not at its end.
pub read_some_lem :
    (n : ℕ) (chunk : Bytes) (chunks : List Bytes)
    → 1 ≤ n
    → All Nonempty (chunk ∷ chunks)
    → (new : Bytes) × (rest : List Bytes) × (read_some n (chunk ∷ chunks) ≡ (new, rest))
      × (1 ≤ length new)
      × (length new ≤ n)
      × (new ++ concat rest ≡ concat (chunk ∷ chunks))
      × All Nonempty rest
read_some_lem n chunk chunks h full = elim (Bool-cases (leb (length chunk) n)) [
  | inl short ↦ (chunk, chunks, rw (short) refl, full.0, ground (arith, short), refl, full.1)
  | inr long ↦ (
    take n chunk,
    drop n chunk ∷ chunks,
    rw (long) refl,
    ground (arith, long, length-take n chunk, h),
    omega (arith, length-take n chunk),
    sym (append_assoc (take n chunk) (drop n chunk) (concat chunks))
        ∙ ap (λ x. x ++ concat chunks) (take-append-drop n chunk),
    (ground (arith, long, length-drop n chunk), full.1),
  )
]

-- At least a byte has moved from the stream behind the contents.
pub record Received (s : PacketReader) (contents : Bytes)
    (outcome : Result (Unit {0}) × PacketReader) : Type 0 where
  pub new : Bytes
  pub after : PacketReader
  pub goes : outcome ≡ (ok tt, after)
  pub some_new : 1 ≤ length new
  pub holds : Holds after.buffer (contents ++ new)
  pub stream : new ++ concat after.incoming ≡ concat s.incoming
  pub nonempty : All Nonempty after.incoming
  pub same_length : after.packet_length ≡ s.packet_length
  pub same_saving : after.saving ≡ s.saving

store_read-Received :
    (s : PacketReader) (b : Buffer) (new contents : Bytes) (rest : List Bytes)
    (h : Holds b contents)
    → 1 ≤ length new
    → length new ≤ length h.free
    → new ++ concat rest ≡ concat s.incoming
    → All Nonempty rest
    → Received s contents (store_read new (record s { buffer = b; incoming = rest }))
store_read-Received s b [] contents rest h n room e full = absurd (omega (arith, n))
store_read-Received s b (c ∷ new) contents rest h n room e full =
    let (bytes, stored, holds) = store-Holds b contents (c ∷ new) h room in
    record {
      new = c ∷ new;
      after = record s {
        buffer = record b { bytes = bytes; j = b.j +ℤ pos (length (c ∷ new)) };
        incoming = rest;
      };
      goes = rw (store_read, stored) refl;
      some_new = n;
      holds = holds;
      stream = e;
      nonempty = full;
      same_length = refl;
      same_saving = refl;
    }

read_into-Received :
    (s : PacketReader) (b : Buffer) (contents chunk : Bytes) (chunks : List Bytes)
    (h : Holds b contents)
    → 1 ≤ length h.free
    → s.incoming ≡ chunk ∷ chunks
    → All Nonempty (chunk ∷ chunks)
    → Received s contents (read_into b s)
read_into-Received s b contents chunk chunks h room e full =
    let (new, rest, reads, n, fits, stream, nonempty) =
      read_some_lem (length h.free) chunk chunks room full in
    let size : pos_part (pos b.n -ℤ b.j) ≡ length h.free =
      ap (λ j. pos_part (pos b.n -ℤ j)) h.at_j
      ∙ ap pos_part (pos-sub b.n (length h.front + length contents) (omega (arith, h.full)))
      ∙ omega (arith, h.full) in
    let open_end : eq_ℤ b.j (pos b.n) ≡ false = ground (arith, h.at_j, h.full, room) in
    let goes : read_into b s ≡ store_read new (record s { buffer = b; incoming = rest }) =
      rw (size, e, reads, open_end) refl in
    subst (λ o. Received s contents o) (sym goes)
      (store_read-Received s b new contents rest h n fits (stream ∙ ap concat (sym e)) nonempty)

-- With something to come, every limit from 1 on makes `receive` read.
pub receive-Received :
    (s : PacketReader) (l : ℕ) (contents chunk : Bytes) (chunks : List Bytes)
    → Holds s.buffer contents
    → length contents < 4096
    → s.saving ≡ false
    → s.incoming ≡ chunk ∷ chunks
    → All Nonempty (chunk ∷ chunks)
    → 1 ≤ l
    → Received s contents (receive (pos l) s)
unfolding receive
receive-Received s l contents chunk chunks h small unsaved e full limit =
    elim (Bool-cases (ltb_ℤ (pos s.buffer.n -ℤ s.buffer.j) (pos l))) [
      | inl tight ↦
          let (b, allocated, h', room) = allocate-Holds s.buffer contents h small in
          let goes : receive (pos l) s ≡ read_into b s =
            rw (receive, tight, ap (λ v. allocate_buffer s.buffer v) unsaved ∙ allocated) refl in
          subst (λ o. Received s contents o) (sym goes)
            (read_into-Received s b contents chunk chunks h' room e full)
      | inr roomy ↦
          let space : pos s.buffer.n -ℤ s.buffer.j ≡ pos (length h.free) =
            ap (λ j. pos s.buffer.n -ℤ j) h.at_j
            ∙ pos-sub s.buffer.n (length h.front + length contents) (omega (arith, h.full))
            ∙ ap pos (omega (arith, h.full)) in
          let room : 1 ≤ length h.free =
            ground (arith, limit, sym (ap (λ d. ltb_ℤ d (pos l)) space) ∙ roomy) in
          let goes : receive (pos l) s ≡ read_into s.buffer s = rw (receive, roomy) refl in
          subst (λ o. Received s contents o) (sym goes)
            (read_into-Received s s.buffer contents chunk chunks h room e full)
    ]

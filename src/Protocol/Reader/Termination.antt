-- ===== src/Protocol/Reader/Termination.antt =====
-- Why the rounds that `read_packet` has are enough, whatever the peer sends.
use silkjam.Prelude.{
  ℕ, zero, suc, inl, inr, ◌-◌, ◌<◌, ◌≡◌, ◌≢◌, ◌⊎◌, refl, sym, subst, ap, ◌∙◌, Bool, true, false,
  none, some, List, [], ◌∷◌, ◌++◌, length, length-append, All, concat, ◌==◌, Bool-cases,
  Option-cases, arith, if◌then◌else◌, replicate,
}
use silkjam.Prelude.Int.{ℤ, pos, ◌+ℤ◌, ◌-ℤ◌, pos_part, eq_ℤ, ltb_ℤ, min_ℤ}
use silkjam.Protocol.Result.{
  Error, protocol, incomplete, connection_reset, endless, Result, ok, err,
}
use silkjam.Protocol.Bytes.{Bytes, slice, slice_from, clip}
use silkjam.Protocol.Packet.{Packet, decode_packet}
use silkjam.Protocol.Buffer.{Buffer, unparsed, assign, new_size, allocate_buffer, min_read_size}
use silkjam.Protocol.Reader.{
  PacketReader, read_some, store_read, read_into, receive, go_on, parse_packet, read_packet_loop,
  read_packet, rounds, advance,
}
use silkjam.Protocol.Reader.Prefix.{decoded, wants, refuses, decode_varint-Answer}
use silkjam.Protocol.Reader.Receive.{Nonempty, read_some_lem}

abbrev is_endless : Error → Bool
is_endless endless = true
is_endless _ = false

abbrev runs_out {ℓ} : {A : Type ℓ} → Result A → Bool
runs_out (err e) = is_endless e
runs_out (ok a) = false

Result-cases {ℓ} :
    {A : Type ℓ} (r : Result A) → ((a : A) × (r ≡ ok a)) ⊎ ((e : Error) × (r ≡ err e))
Result-cases (ok a) = inl (a, refl)
Result-cases (err e) = inr (e, refl)

-- What a round does about missing data: it raises, or it takes from the stream.
data Taken (s : PacketReader) (outcome : Result (Unit {0}) × PacketReader) : Type 0 where
  raises :
      (s' : PacketReader) (e : Error)
      → is_endless e ≡ false
      → outcome ≡ (err e, s')
      → Taken s outcome
  takes :
      (s' : PacketReader)
      → length (concat s'.incoming) < length (concat s.incoming)
      → All Nonempty s'.incoming
      → outcome ≡ (ok tt, s')
      → Taken s outcome

assign_ends : (view : Bytes) (i j : ℤ) (source : Bytes) → runs_out (assign view i j source) ≡ false
unfolding assign
assign_ends view i j source =
    elim (Bool-cases (length source == (clip (length view) j - clip (length view) i))) [
      | inl fits ↦ rw (fits) refl
      | inr differs ↦ rw (differs) refl
    ]

allocate_ends : (b : Buffer) (save : Bool) → runs_out (allocate_buffer b save) ≡ false
unfolding allocate_buffer
allocate_ends b save =
    let k = (if save then b.k else b.i) in
    let view : Bytes = replicate (new_size (b.j -ℤ k) b.n) 0 in
    let moved = assign view (pos 0) (b.j -ℤ k) (slice b.bytes k b.j) in
    elim (Result-cases moved) [
      | inl (bytes, e) ↦ rw (e) refl
      | inr (raised, e) ↦
          rw (e) (ap runs_out (sym e) ∙ assign_ends view (pos 0) (b.j -ℤ k) (slice b.bytes k b.j))
    ]

decode_packet_ends : (bytes : Bytes) → runs_out (decode_packet bytes) ≡ false
unfolding decode_packet
decode_packet_ends bytes = elim (decode_varint-Answer bytes) [
  | wants e ↦ rw (e) refl
  | refuses e ↦ rw (e) refl
  | decoded n v e ↦ elim (Bool-cases (ltb_ℤ (pos (length bytes)) (pos n +ℤ v))) [
    | inl short ↦ rw (e, short) refl
    | inr enough ↦ elim (decode_varint-Answer (slice_from bytes (pos n))) [
      | wants e' ↦ rw (e, enough, e') refl
      | refuses e' ↦ rw (e, enough, e') refl
      | decoded m w e' ↦ rw (e, enough, e') refl
    ]
  ]
]

store_read-Taken :
    (s s' : PacketReader) (new : Bytes)
    → All Nonempty s'.incoming
    → new ++ concat s'.incoming ≡ concat s.incoming
    → Taken s (store_read new s')
store_read-Taken s s' [] nonempty e = raises s' connection_reset refl refl
store_read-Taken s s' (b ∷ new) nonempty e =
    let size = pos (length (b ∷ new)) in
    let stop = s'.buffer.j +ℤ size in
    elim (Result-cases (assign s'.buffer.bytes s'.buffer.j stop (b ∷ new))) [
      | inl (bytes, stored) ↦
          takes (record s' { buffer = record s'.buffer { bytes = bytes; j = stop } })
            (omega (arith, ap length e, length-append new (concat s'.incoming))) nonempty
            (rw (store_read, stored) refl)
      | inr (raised, failed) ↦
          raises s' raised
            (ap runs_out (sym failed) ∙ assign_ends s'.buffer.bytes s'.buffer.j stop (b ∷ new))
            (rw (store_read, failed) refl)
    ]

read_some-Taken :
    (s : PacketReader) (b : Buffer) (n : ℕ) (chunks : List Bytes)
    → All Nonempty chunks
    → s.incoming ≡ chunks
    → Taken s (
        store_read
          (read_some n chunks).0
          (record s { buffer = b; incoming = (read_some n chunks).1 }))
read_some-Taken s b n [] nonempty e =
    raises (record s { buffer = b; incoming = [] }) connection_reset refl refl
read_some-Taken s b zero (chunk ∷ chunks) nonempty e =
    let nothing : read_some zero (chunk ∷ chunks) ≡ ([], chunk ∷ chunks) =
      ground (arith, nonempty.0) in
    subst (λ o. Taken s (store_read o.0 (record s { buffer = b; incoming = o.1 }))) (sym nothing)
      (raises (record s { buffer = b; incoming = chunk ∷ chunks }) connection_reset refl refl)
read_some-Taken s b (suc n) (chunk ∷ chunks) nonempty e =
    let (new, rest, reads, some_new, fits, stream, others) =
      read_some_lem (suc n) chunk chunks (omega arith) nonempty in
    subst (λ o. Taken s (store_read o.0 (record s { buffer = b; incoming = o.1 }))) (sym reads)
      (store_read-Taken s (record s { buffer = b; incoming = rest }) new others
        (stream ∙ ap concat (sym e)))

read_into-Taken :
    (s : PacketReader) (b : Buffer) → All Nonempty s.incoming → Taken s (read_into b s)
read_into-Taken s b nonempty = elim (Bool-cases (eq_ℤ b.j (pos b.n))) [
  | inl full ↦ raises (record s { buffer = b }) protocol refl (rw (full) refl)
  | inr open_end ↦
      let n = pos_part (pos b.n -ℤ b.j) in
      let goes : read_into b s
          ≡ store_read (read_some n s.incoming).0
              (record s { buffer = b; incoming = (read_some n s.incoming).1 }) =
        rw (open_end) refl in
      subst (λ o. Taken s o) (sym goes) (read_some-Taken s b n s.incoming nonempty refl)
]

receive-Taken : (l : ℤ) (s : PacketReader) → All Nonempty s.incoming → Taken s (receive l s)
unfolding receive
receive-Taken l s nonempty = elim (Bool-cases (ltb_ℤ (pos s.buffer.n -ℤ s.buffer.j) l)) [
  | inr roomy ↦
      subst (λ o. Taken s o) (sym (rw (receive, roomy) refl)) (read_into-Taken s s.buffer nonempty)
  | inl tight ↦ elim (Result-cases (allocate_buffer s.buffer s.saving)) [
    | inl (b, allocated) ↦
        subst (λ o. Taken s o) (sym (rw (receive, tight, allocated) refl))
          (read_into-Taken s b nonempty)
    | inr (raised, failed) ↦
        raises s raised (ap runs_out (sym failed) ∙ allocate_ends s.buffer s.saving)
          (rw (receive, tight, failed) refl)
  ]
]

-- Every call of the loop with some fuel ends.
abbrev Ends {ℓ} : {A : Type ℓ} → (PacketReader → Result A × PacketReader) → ℕ → Type 0
Ends loop fuel =
    (s : PacketReader)
    → All Nonempty s.incoming
    → length (concat s.incoming) < fuel
    → runs_out (loop s).0 ≡ false

-- A round goes on with fewer bytes to come, or ends.
go_on-Ends {ℓ} :
    {A : Type ℓ} (loop : PacketReader → Result A × PacketReader) (fuel : ℕ) (l : ℤ)
    (s : PacketReader)
    → Ends loop fuel
    → All Nonempty s.incoming
    → length (concat s.incoming) < suc fuel
    → runs_out (go_on loop (receive l s)).0 ≡ false
go_on-Ends loop fuel l s ends nonempty enough = elim (receive-Taken l s nonempty) [
  | raises s' e real stops ↦ ap (λ o. runs_out (go_on loop o).0) stops ∙ real
  | takes s' fewer others goes ↦
      ap (λ o. runs_out (go_on loop o).0) goes ∙ ends s' others (omega (arith, fewer, enough))
]

parse_packet-Ends :
    (loop : PacketReader → Result Packet × PacketReader) (fuel : ℕ) (l : ℤ) (s : PacketReader)
    → Ends loop fuel
    → All Nonempty s.incoming
    → length (concat s.incoming) < suc fuel
    → runs_out (parse_packet loop l s).0 ≡ false
parse_packet-Ends loop fuel l s ends nonempty enough =
    answered (decode_packet (unparsed s.buffer)) refl
  where
    answered :
        (r : Result Packet)
        → decode_packet (unparsed s.buffer) ≡ r
        → runs_out (parse_packet loop l s).0 ≡ false
    answered (ok p) e =
        let goes : parse_packet loop l s
            ≡ (ok p, record (advance p.size s) { packet_length = none }) =
          rw (parse_packet, e) refl in
        ap (λ o. runs_out o.0) goes
    answered (err incomplete) e =
        let goes : parse_packet loop l s ≡ go_on loop (receive (min_ℤ (pos min_read_size) l) s) =
          rw (parse_packet, e) refl in
        ap (λ o. runs_out o.0) goes
        ∙ go_on-Ends loop fuel (min_ℤ (pos min_read_size) l) s ends nonempty enough
    answered (err other) e =
        let goes : parse_packet loop l s ≡ (err other, s) = rw (parse_packet, e) refl in
        ap (λ o. runs_out o.0) goes ∙ ap runs_out (sym e) ∙ decode_packet_ends (unparsed s.buffer)

unmeasured-Ends :
    (fuel : ℕ) (s : PacketReader)
    → Ends (read_packet_loop fuel) fuel
    → All Nonempty s.incoming
    → length (concat s.incoming) < suc fuel
    → s.packet_length ≡ none
    → runs_out (read_packet_loop (suc fuel) s).0 ≡ false
unfolding read_packet_loop
unmeasured-Ends fuel s ends nonempty enough unknown =
    ap (λ k. runs_out (read_packet_loop (suc fuel) (record s { packet_length = k })).0) unknown
    ∙ elim (decode_varint-Answer (unparsed s.buffer)) [
      | decoded n v d ↦
          let measured = record fresh { packet_length = some v } in
          let goes : read_packet_loop (suc fuel) fresh
              ≡ parse_packet (read_packet_loop fuel) v measured =
            rw (read_packet_loop, d) refl in
          ap (λ o. runs_out o.0) goes
          ∙ parse_packet-Ends (read_packet_loop fuel) fuel v measured ends nonempty enough
      | wants d ↦
          let goes : read_packet_loop (suc fuel) fresh
              ≡ go_on (read_packet_loop fuel) (receive (pos min_read_size) fresh) =
            rw (read_packet_loop, d) refl in
          ap (λ o. runs_out o.0) goes
          ∙ go_on-Ends (read_packet_loop fuel) fuel (pos min_read_size) fresh ends nonempty enough
      | refuses d ↦
          let goes : read_packet_loop (suc fuel) fresh ≡ (err protocol, fresh) =
            rw (read_packet_loop, d) refl in
          ap (λ o. runs_out o.0) goes
    ]
  where
    fresh : PacketReader
    fresh = record s { packet_length = none }

loop-Ends : (fuel : ℕ) → Ends (read_packet_loop fuel) fuel
unfolding read_packet_loop
loop-Ends zero s nonempty enough = absurd (omega (arith, enough))
loop-Ends (suc fuel) s nonempty enough = elim (Option-cases s.packet_length) [
  | inl unknown ↦ unmeasured-Ends fuel s (loop-Ends fuel) nonempty enough unknown
  | inr (l, known) ↦
      ap (λ k. runs_out (read_packet_loop (suc fuel) (record s { packet_length = k })).0) known
      ∙ parse_packet-Ends (read_packet_loop fuel) fuel l (record s { packet_length = some l })
          (loop-Ends fuel) nonempty enough
]

-- Whatever bytes arrive, in pieces that are not empty, and whatever state the reader is in, the
-- rounds of `read_packet` do not run out: it returns a packet or raises an exception.
pub read_packet_terminates :
    (s : PacketReader) → All Nonempty s.incoming → (read_packet s).0 ≢ err endless
unfolding read_packet
read_packet_terminates s nonempty e =
    ground (arith, sym (ap runs_out e) ∙ loop-Ends (rounds s) s nonempty (omega arith))

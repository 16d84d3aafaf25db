-- ===== src/Protocol/Reader/Packets.antt =====
-- What `read_packet` returns of framed packets that come in pieces.
use silkjam.Prelude.{
  ℕ, zero, suc, inl, inr, ◌+◌, ◌≤◌, ◌<◌, ◌^◌, ◌≡◌, ◌⊎◌, refl, sym, subst, ap, ◌∙◌, false, none,
  some, List, [], ◌∷◌, ◌++◌, length, length-append, append_assoc, All, concat, ltb, Bool-cases,
  arith, min,
}
use silkjam.Prelude.Int.{ℤ, pos, min_ℤ}
use silkjam.Protocol.Result.{Result, ok, err, incomplete}
use silkjam.Protocol.Bytes.{Bytes}
use silkjam.Protocol.Varint.{IsInt32, decode_varint}
use silkjam.Protocol.Varint.RoundTrip.{varint, length-varint}
use silkjam.Protocol.Packet.{Packet, decode_packet}
use silkjam.Protocol.Packet.Frames.{packet_bytes, decode_packet-bytes}
use silkjam.Protocol.Buffer.{unparsed, min_read_size}
use silkjam.Protocol.Reader.{
  PacketReader, receive, advance, go_on, parse_packet, read_packet_loop, read_packet, rounds,
}
use silkjam.Protocol.Reader.Prefix.{longer_front, length_or_more, decode_packet-wants}
use silkjam.Protocol.Reader.Contents.{Holds, unparsed-Holds, advance-Holds}
use silkjam.Protocol.Reader.Receive.{Nonempty, Received, receive-Received}

-- A reader that holds `held`, with a stream of pieces before it.
pub record IsReady (s : PacketReader) (held : Bytes) : Type 0 where
  pub holds : Holds s.buffer held
  pub unsaved : s.saving ≡ false
  pub nonempty : All Nonempty s.incoming

-- The packet is returned, and `rest` is what is left.
pub record Reads (p : Packet) (rest : Bytes) (outcome : Result Packet × PacketReader) : Type 0 where
  pub after : PacketReader
  pub left : Bytes
  pub returns : outcome ≡ (ok p, after)
  pub ready : IsReady after left
  pub arrives : left ++ concat after.incoming ≡ rest
  pub no_length : after.packet_length ≡ none

-- What the packet of some bytes is.
abbrev pub packet_of : ℤ → Bytes → Packet
packet_of id payload = record {
  size = pos (length (packet_bytes id payload));
  id = id;
  payload = payload;
}

module _ (id : ℤ) (payload rest : Bytes) (ok_id : IsInt32 id)
    (fits : length (packet_bytes id payload) ≤ 4096) where
  abbrev whole : Bytes
  whole = packet_bytes id payload

  abbrev size : ℕ
  size = length (varint id) + length payload

  short_size : length (varint id) + length payload < 2 ^ 31
  short_size = omega (
    arith,
    fits,
    length-append (varint (pos size)) (varint id ++ payload),
    length-append (varint id) payload,
  )

  -- The loop with some fuel reads the packet from any reader that has it before it.
  abbrev LoopReads : (PacketReader → Result Packet × PacketReader) → ℕ → Type 0
  LoopReads loop fuel =
      (s : PacketReader) (held : Bytes)
      → IsReady s held
      → length (concat s.incoming) < fuel
      → held ++ concat s.incoming ≡ whole ++ rest
      → (s.packet_length ≡ none) ⊎ (s.packet_length ≡ some (pos size))
      → Reads (packet_of id payload) rest (loop s)

  -- A read, and on with the loop.
  receive_goes_on :
      (loop : PacketReader → Result Packet × PacketReader) (fuel : ℕ) (l : ℕ) (s : PacketReader)
      (held : Bytes)
      → LoopReads loop fuel
      → 1 ≤ l
      → IsReady s held
      → length (concat s.incoming) < suc fuel
      → held ++ concat s.incoming ≡ whole ++ rest
      → (s.packet_length ≡ none) ⊎ (s.packet_length ≡ some (pos size))
      → length held < length whole
      → Reads (packet_of id payload) rest (go_on loop (receive (pos l) s))
  receive_goes_on loop fuel l s held reads limit ready enough e known short = arrive s.incoming refl
    where
      go_on_from :
          Received s held (receive (pos l) s)
          → Reads (packet_of id payload) rest (go_on loop (receive (pos l) s))
      go_on_from r =
          subst (λ o. Reads (packet_of id payload) rest (go_on loop o)) (sym r.goes)
            (reads r.after (held ++ r.new)
              (record {
                holds = r.holds;
                unsaved = r.same_saving ∙ ready.unsaved;
                nonempty = r.nonempty;
              })
              (omega (
                arith,
                enough,
                ap length r.stream,
                length-append r.new (concat r.after.incoming),
                r.some_new,
              ))
              (append_assoc held r.new (concat r.after.incoming) ∙ ap (λ x. held ++ x) r.stream ∙ e)
              (subst (λ k. (k ≡ none) ⊎ (k ≡ some (pos size))) (sym r.same_length) known))

      arrive :
          (chunks : List Bytes)
          → s.incoming ≡ chunks
          → Reads (packet_of id payload) rest (go_on loop (receive (pos l) s))
      arrive [] none_left = absurd (
          omega (
            arith,
            short,
            ap length (ap (λ c. held ++ concat c) (sym none_left) ∙ e),
            length-append held [],
            length-append whole rest,
          ))
      arrive (chunk ∷ chunks) some_left = go_on_from (
          receive-Received s l held chunk chunks ready.holds (omega (arith, short, fits))
            ready.unsaved some_left (subst (λ c. All Nonempty c) some_left ready.nonempty) limit)

  parse_packet-Reads :
      (loop : PacketReader → Result Packet × PacketReader) (fuel : ℕ) (s : PacketReader)
      (held : Bytes)
      → LoopReads loop fuel
      → IsReady s held
      → length (concat s.incoming) < suc fuel
      → held ++ concat s.incoming ≡ whole ++ rest
      → s.packet_length ≡ some (pos size)
      → Reads (packet_of id payload) rest (parse_packet loop (pos size) s)
  parse_packet-Reads loop fuel s held reads ready enough e known =
      let view : unparsed s.buffer ≡ held = unparsed-Holds s.buffer held ready.holds in
      elim (Bool-cases (ltb (length held) (length whole))) [
        | inl short ↦
            let wants : decode_packet (unparsed s.buffer) ≡ err incomplete =
              ap decode_packet view
              ∙ decode_packet-wants id payload rest held (concat s.incoming) e ok_id short_size
                  (ground (arith, short)) in
            let limits : min_ℤ (pos min_read_size) (pos size) ≡ pos (min min_read_size size) =
              ground arith in
            subst (λ o. Reads (packet_of id payload) rest o)
              (sym (rw (parse_packet, wants) (ap (λ t. go_on loop (receive t s)) limits)))
              (receive_goes_on loop fuel (min min_read_size size) s held reads
                (omega (arith, (length-varint id ok_id).0)) ready enough e (inr known)
                (ground (arith, short)))
        | inr enough_data ↦
            let (more, front, back) =
              longer_front whole rest held (concat s.incoming) e (ground (arith, enough_data)) in
            let parsed : decode_packet (unparsed s.buffer) ≡ ok (packet_of id payload) =
              ap decode_packet (view ∙ front)
              ∙ decode_packet-bytes id payload more ok_id short_size in
            subst (λ o. Reads (packet_of id payload) rest o) (sym (rw (parse_packet, parsed) refl))
              (record {
                after = record (advance (pos (length whole)) s) { packet_length = none };
                left = more;
                returns = refl;
                ready = record {
                  holds =
                      advance-Holds s.buffer whole more
                        (subst (λ c. Holds s.buffer c) front ready.holds);
                  unsaved = ready.unsaved;
                  nonempty = ready.nonempty;
                };
                arrives = sym back;
                no_length = refl;
              })
      ]

  -- Without its length, a packet is not all there.
  no_length_short :
      (held back : Bytes)
      → held ++ back ≡ whole ++ rest
      → decode_varint held ≡ err incomplete
      → length held < length whole
  unfolding decode_packet
  no_length_short held back e wants = elim (Bool-cases (ltb (length held) (length whole))) [
    | inl short ↦ ground (arith, short)
    | inr enough ↦
        let (more, front, back) = longer_front whole rest held back e (ground (arith, enough)) in
        let parsed : decode_packet held ≡ ok (packet_of id payload) =
          ap decode_packet front ∙ decode_packet-bytes id payload more ok_id short_size in
        let refused : decode_packet held ≡ err incomplete = rw (wants) refl in
        absurd (ground (arith, sym parsed ∙ refused))
  ]

  loop-Reads : (fuel : ℕ) → LoopReads (read_packet_loop fuel) fuel
  unfolding read_packet_loop
  loop-Reads zero s held ready enough e known = absurd (omega (arith, enough))
  loop-Reads (suc fuel) s held ready enough e (inr known) =
      subst (λ o. Reads (packet_of id payload) rest o)
        (sym (
          rw (read_packet_loop, known)
            (ap
              (λ k.
                parse_packet (read_packet_loop fuel) (pos size) (record s { packet_length = k }))
              known)))
        (parse_packet-Reads (read_packet_loop fuel) fuel s held (loop-Reads fuel) ready enough e
          known)
  loop-Reads (suc fuel) s held ready enough e (inl known) =
      let view : unparsed s.buffer ≡ held = unparsed-Holds s.buffer held ready.holds in
      elim (length_or_more id payload rest held (concat s.incoming) e ok_id short_size) [
        | inl wants ↦
            let wants' = ap decode_varint view ∙ wants in
            subst (λ o. Reads (packet_of id payload) rest o)
              (sym (
                rw (read_packet_loop, known)
                  (rw (wants') (
                    ap
                      (λ k.
                        go_on (read_packet_loop fuel)
                          (receive (pos min_read_size) (record s { packet_length = k })))
                      known))))
              (receive_goes_on (read_packet_loop fuel) fuel min_read_size s held (loop-Reads fuel)
                (omega arith) ready enough e (inl known)
                (no_length_short held (concat s.incoming) e wants))
        | inr decoded ↦
            let decoded' = ap decode_varint view ∙ decoded in
            subst (λ o. Reads (packet_of id payload) rest o)
              (sym (rw (read_packet_loop, known) (rw (decoded') refl)))
              (parse_packet-Reads (read_packet_loop fuel) fuel
                (record s { packet_length = some (pos size) }) held (loop-Reads fuel)
                (record { holds = ready.holds; unsaved = ready.unsaved; nonempty = ready.nonempty })
                enough e refl)
      ]

-- What `read_packet` does where a packet has just begun.
pub read_packet-Reads :
    (id : ℤ) (payload rest : Bytes)
    → IsInt32 id
    → length (packet_bytes id payload) ≤ 4096
    → (s : PacketReader) (held : Bytes) → IsReady s held
    → s.packet_length ≡ none
    → held ++ concat s.incoming ≡ packet_bytes id payload ++ rest
    → Reads (packet_of id payload) rest (read_packet s)
unfolding read_packet
read_packet-Reads id payload rest ok_id fits s held ready fresh e =
    loop-Reads id payload rest ok_id fits (rounds s) s held ready (omega arith) e (inl fresh)

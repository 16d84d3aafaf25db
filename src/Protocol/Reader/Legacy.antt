-- ===== src/Protocol/Reader/Legacy.antt =====
-- `read_legacy_ping` on the stream of a modern client.
use silkjam.Prelude.{
  ℕ, zero, suc, inl, inr, ◌≤◌, ◌<◌, ◌≡◌, ◌⊎◌, refl, sym, subst, ap, ◌∙◌, List, [], ◌∷◌, ◌++◌,
  length, length-append, append_assoc, All, concat, ltb, ◌==◌, Bool-cases, arith,
}
use silkjam.Prelude.Int.{pos}
use silkjam.Protocol.Result.{Result, protocol, incomplete, err}
use silkjam.Protocol.Bytes.{Bytes}
use silkjam.Protocol.Buffer.{unparsed, min_read_size}
use silkjam.Protocol.Legacy.{LegacyPingRequest, decode_legacy_ping}
use silkjam.Protocol.Legacy.Discriminator.{NotHeader, refused}
use silkjam.Protocol.Reader.{
  PacketReader, receive, go_on, read_legacy_ping_loop, read_legacy_ping, rounds,
}
use silkjam.Protocol.Reader.Contents.{unparsed-Holds}
use silkjam.Protocol.Reader.Receive.{Nonempty, receive-Received}
use silkjam.Protocol.Reader.Packets.{IsReady}

-- Fewer than three bytes are too few, or the first is refused.
few_bytes :
    (front : Bytes)
    → length front < 3
    → (decode_legacy_ping front ≡ err incomplete) ⊎ (decode_legacy_ping front ≡ err protocol)
unfolding decode_legacy_ping
few_bytes [] h = inl refl
few_bytes (x ∷ []) h = elim (Bool-cases (x == 0xfe)) [
  | inl e ↦ inl (rw (e) refl)
  | inr e ↦ inr (rw (e) refl)
]
few_bytes (x ∷ y ∷ []) h = elim (Bool-cases (x == 0xfe)) [
  | inl e ↦ inl (rw (e) refl)
  | inr e ↦ inr (rw (e) refl)
]
few_bytes (x ∷ y ∷ z ∷ front) h = absurd (omega (arith, h))

three_bytes :
    (front back : Bytes)
    → NotHeader (front ++ back)
    → 3 ≤ length front
    → decode_legacy_ping front ≡ err protocol
three_bytes [] back h n = absurd (omega (arith, n))
three_bytes (x ∷ []) back h n = absurd (omega (arith, n))
three_bytes (x ∷ y ∷ []) back h n = absurd (omega (arith, n))
three_bytes (x ∷ y ∷ z ∷ front) back h n =
    let shape : x ∷ y ∷ z ∷ (front ++ back) ≡ h.x ∷ h.y ∷ h.z ∷ h.tail = h.shape in
    let same_x : h.x ≡ x = cc shape in
    let same_y : h.y ≡ y = cc shape in
    let same_z : h.z ≡ z = cc shape in
    refused x y z front (λ p q r. h.differs (same_x ∙ p) (same_y ∙ q) (same_z ∙ r))

modern_answer :
    (front back : Bytes)
    → NotHeader (front ++ back)
    → ((length front < 3) × (decode_legacy_ping front ≡ err incomplete))
      ⊎ (decode_legacy_ping front ≡ err protocol)
modern_answer front back h = elim (Bool-cases (ltb (length front) 3)) [
  | inr long ↦ inr (three_bytes front back h (ground (arith, long)))
  | inl short ↦ elim (few_bytes front (ground (arith, short))) [
    | inl e ↦ inl (ground (arith, short), e)
    | inr e ↦ inr e
  ]
]

-- The stream of a modern client is refused, and all of it is still there.
pub record Refuses (stream : Bytes) (s : PacketReader)
    (outcome : Result LegacyPingRequest × PacketReader) : Type 0 where
  pub after : PacketReader
  pub left : Bytes
  pub returns : outcome ≡ (err protocol, after)
  pub ready : IsReady after left
  pub arrives : left ++ concat after.incoming ≡ stream
  pub same_length : after.packet_length ≡ s.packet_length

-- A read of more, and on with the loop.
receive_goes_on :
    (stream : Bytes) (fuel : ℕ)
    → ((s : PacketReader) (held : Bytes)
        → IsReady s held
        → length (concat s.incoming) < fuel
        → held ++ concat s.incoming ≡ stream
        → Refuses stream s (read_legacy_ping_loop fuel s))
    → (s : PacketReader) (held : Bytes) (chunks : List Bytes) → IsReady s held
    → length (concat s.incoming) < suc fuel
    → held ++ concat s.incoming ≡ stream
    → length held < 3
    → 3 ≤ length stream
    → s.incoming ≡ chunks
    → Refuses stream s (go_on (read_legacy_ping_loop fuel) (receive (pos min_read_size) s))
receive_goes_on stream fuel loop s held [] ready enough e few long coming = absurd (
    omega (
      arith,
      few,
      long,
      ap length (ap (λ c. held ++ concat c) (sym coming) ∙ e),
      length-append held [],
    ))
receive_goes_on stream fuel loop s held (chunk ∷ chunks) ready enough e few long coming =
    let r =
      receive-Received s min_read_size held chunk chunks ready.holds (omega (arith, few))
        ready.unsaved coming (subst (λ c. All Nonempty c) coming ready.nonempty) (omega arith) in
    let next =
      loop r.after (held ++ r.new)
        (record { holds = r.holds; unsaved = r.same_saving ∙ ready.unsaved; nonempty = r.nonempty })
        (omega (
          arith,
          enough,
          ap length r.stream,
          length-append r.new (concat r.after.incoming),
          r.some_new,
        ))
        (append_assoc held r.new (concat r.after.incoming) ∙ ap (λ x. held ++ x) r.stream ∙ e) in
    record {
      after = next.after;
      left = next.left;
      returns = ap (go_on (read_legacy_ping_loop fuel)) r.goes ∙ next.returns;
      ready = next.ready;
      arrives = next.arrives;
      same_length = next.same_length ∙ r.same_length;
    }

loop-Refuses :
    (stream : Bytes)
    → NotHeader stream
    → (fuel : ℕ) (s : PacketReader) (held : Bytes) → IsReady s held
    → length (concat s.incoming) < fuel
    → held ++ concat s.incoming ≡ stream
    → Refuses stream s (read_legacy_ping_loop fuel s)
unfolding read_legacy_ping_loop
loop-Refuses stream modern zero s held ready enough e = absurd (omega (arith, enough))
loop-Refuses stream modern (suc fuel) s held ready enough e =
    let view : unparsed s.buffer ≡ held = unparsed-Holds s.buffer held ready.holds in
    elim (modern_answer held (concat s.incoming) (subst (λ x. NotHeader x) (sym e) modern)) [
      | inr refusal ↦ record {
        after = s;
        left = held;
        returns = rw (read_legacy_ping_loop, ap decode_legacy_ping view ∙ refusal) refl;
        ready = ready;
        arrives = e;
        same_length = refl;
      }
      | inl (few, more) ↦
          let goes : read_legacy_ping_loop (suc fuel) s
              ≡ go_on (read_legacy_ping_loop fuel) (receive (pos min_read_size) s) =
            rw (read_legacy_ping_loop, ap decode_legacy_ping view ∙ more) refl in
          subst (λ o. Refuses stream s o) (sym goes)
            (receive_goes_on stream fuel (loop-Refuses stream modern fuel) s held s.incoming ready
              enough e few (omega (arith, ap length modern.shape)) refl)
    ]

pub read_legacy_ping-Refuses :
    (stream : Bytes) (s : PacketReader) (held : Bytes)
    → NotHeader stream
    → IsReady s held
    → held ++ concat s.incoming ≡ stream
    → Refuses stream s (read_legacy_ping s)
unfolding read_legacy_ping
read_legacy_ping-Refuses stream s held modern ready e =
    loop-Refuses stream modern (rounds s) s held ready (omega arith) e

-- ===== src/Protocol/Legacy/Discriminator.antt =====
-- A modern handshake is never taken for a legacy ping.
use silkjam.Prelude.{
  ℕ, zero, suc, ◌+◌, ◌/◌, ◌%◌, ◌^◌, ◌≤◌, ◌<◌, ◌≡◌, ◌≢◌, refl, ap, sym, subst, ◌∙◌, [], ◌∷◌, ◌++◌,
  append_assoc, length, arith,
}
use silkjam.Prelude.Int.{pos}
use silkjam.Prelude.Bits.{bit_and_mask, bit_or_shifted}
use silkjam.Protocol.Result.{ok, err, protocol}
use silkjam.Protocol.Bytes.{Bytes, bytes_eq}
use silkjam.Protocol.Bytes.Laws.{slice-append}
use silkjam.Protocol.Varint.{encode_varint_loop}
use silkjam.Protocol.Varint.RoundTrip.{varint, length-varint}
use silkjam.Protocol.Packet.{encode_packet}
use silkjam.Protocol.Packet.Frames.{packet_bytes, encode_packet-bytes}
use native.Mathlib.Decide.{dec_lt}
use silkjam.Protocol.Legacy.{decode_legacy_ping}

-- Three bytes that are not the header of a legacy ping.
pub record NotHeader (bytes : Bytes) : Type 0 where
  pub x : ℕ
  pub y : ℕ
  pub z : ℕ
  pub tail : Bytes
  pub shape : bytes ≡ x ∷ y ∷ z ∷ tail
  pub differs : (x ≡ 0xfe) → (y ≡ 0x01) → z ≢ 0xfa

abbrev not_header :
    (x y z : ℕ) (tail : Bytes) → ((x ≡ 0xfe) → (y ≡ 0x01) → z ≢ 0xfa) → NotHeader (x ∷ y ∷ z ∷ tail)
not_header x y z tail h = record { x = x; y = y; z = z; tail = tail; shape = refl; differs = h }

pub refused :
    (x y z : ℕ) (tail : Bytes)
    → ((x ≡ 0xfe) → (y ≡ 0x01) → z ≢ 0xfa)
    → decode_legacy_ping (x ∷ y ∷ z ∷ tail) ≡ err protocol
unfolding decode_legacy_ping bytes_eq
refused x y z tail h =
    ground (arith, slice-append [] (x ∷ y ∷ z ∷ []) tail (pos 0) (pos 3) refl refl, h)

-- The bytes of a VarInt: one below 128, or the low group and the bytes of the rest.
loop_small : (f w : ℕ) → w < 128 → encode_varint_loop (suc f) w ≡ w ∷ []
unfolding encode_varint_loop
loop_small f w h = ground (arith, bit_and_mask 7 w)

loop_large :
    (f w : ℕ)
    → 128 ≤ w
    → encode_varint_loop (suc f) w ≡ (w % 128 + 128) ∷ encode_varint_loop f (w / 128)
unfolding encode_varint_loop
loop_large f w h = ground (arith, bit_and_mask 7 w, bit_or_shifted 7 (w % 128) 1)

second_refused : (x y b : ℕ) (ys tail : Bytes) → y ≢ 1 → NotHeader (x ∷ y ∷ (ys ++ (0 ∷ b ∷ tail)))
second_refused x y b [] tail h = not_header x y 0 (b ∷ tail) (λ p q. absurd (h q))
second_refused x y b (z ∷ ys) tail h = not_header x y z (ys ++ (0 ∷ b ∷ tail)) (λ p q. absurd (h q))

-- A length prefix, then the id 0, then a payload that is not empty.
prefix_refused :
    (f w b : ℕ) (tail : Bytes) → NotHeader (encode_varint_loop (suc (suc f)) w ++ (0 ∷ b ∷ tail))
prefix_refused f w b tail = elim (dec_lt w 128) [
  | yes small ↦ rw (loop_small (suc f) w small) (not_header w 0 b tail (λ p. absurd (omega arith)))
  | no large ↦ rw (loop_large (suc f) w (omega arith)) (elim (dec_lt (w / 128) 128) [
    | yes small ↦
        rw (loop_small f (w / 128) small)
          (not_header (w % 128 + 128) (w / 128) 0 (b ∷ tail) (λ p q. omega arith))
    | no large' ↦
        rw (loop_large f (w / 128) (omega arith))
          (second_refused (w % 128 + 128) (w / 128 % 128 + 128) b _ tail (omega arith))
  ])
]

prefix_refused_any :
    (w b : ℕ) (tail : Bytes) → 0 < w → NotHeader (encode_varint_loop (suc w) w ++ (0 ∷ b ∷ tail))
prefix_refused_any zero b tail h = absurd (omega arith)
prefix_refused_any (suc w) b tail h = prefix_refused w (suc w) b tail

id_zero : varint (pos 0) ≡ 0 ∷ []
unfolding varint encode_varint_loop
id_zero = refl

frame_shape :
    (b : ℕ) (payload : Bytes)
    → packet_bytes (pos 0) (b ∷ payload)
      ≡ varint (pos (suc (suc (length payload)))) ++ (0 ∷ b ∷ payload)
frame_shape b payload = rw id_zero (ap (λ n. varint (pos n) ++ (0 ∷ b ∷ payload)) (omega arith))

varint_refused : (w b : ℕ) (tail : Bytes) → 0 < w → NotHeader (varint (pos w) ++ (0 ∷ b ∷ tail))
unfolding varint
varint_refused w b tail h = prefix_refused_any w b tail h

pub packet_bytes-NotHeader :
    (b : ℕ) (payload rest : Bytes) → NotHeader (packet_bytes (pos 0) (b ∷ payload) ++ rest)
packet_bytes-NotHeader b payload rest =
    subst (λ s. NotHeader s)
      (sym (
        ap (λ x. x ++ rest) (frame_shape b payload)
        ∙ append_assoc (varint (pos (suc (suc (length payload))))) (0 ∷ b ∷ payload) rest))
      (varint_refused (suc (suc (length payload))) b (payload ++ rest) (omega arith))

pub decode_legacy_ping-packet :
    (b : ℕ) (payload rest : Bytes)
    → decode_legacy_ping (packet_bytes (pos 0) (b ∷ payload) ++ rest) ≡ err protocol
decode_legacy_ping-packet b payload rest =
    let h = packet_bytes-NotHeader b payload rest in
    ap decode_legacy_ping h.shape ∙ refused h.x h.y h.z h.tail h.differs

-- No packet that `encode_packet` frames under id 0 with a payload, as every modern handshake is,
-- parses as a legacy ping, whatever its length and whatever follows.
pub handshake_not_legacy :
    (b : ℕ) (payload rest : Bytes)
    → length payload + 7 < 2 ^ 31
    → (bytes : Bytes) × (encode_packet (pos 0) (b ∷ payload) ≡ ok bytes)
      × (decode_legacy_ping (bytes ++ rest) ≡ err protocol)
handshake_not_legacy b payload rest fits = (
  packet_bytes (pos 0) (b ∷ payload),
  encode_packet-bytes (pos 0) (b ∷ payload) (omega arith) (omega (arith, length-varint (pos 0))),
  decode_legacy_ping-packet b payload rest,
)

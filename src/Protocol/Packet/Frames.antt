-- ===== src/Protocol/Packet/Frames.antt =====
-- Strings and framed packets: what the decoders read of what the encoders wrote.
use silkjam.Prelude.{
  ℕ, ◌+◌, ◌^◌, ◌≤◌, ◌<◌, ◌≡◌, refl, ap, sym, ◌∙◌, ◌++◌, append_assoc, length, length-append, All,
  arith,
}
use silkjam.Prelude.Int.{ℤ, pos, pos-+}
use silkjam.Protocol.Result.{ok}
use silkjam.Protocol.Bytes.{Bytes, slice, slice_from}
use silkjam.Protocol.Bytes.Laws.{slice-append, slice_from-append}
use silkjam.Protocol.Text.{Text, IsScalar, utf8_bytes, decode_utf8}
use silkjam.Protocol.Text.RoundTrip.{text_bytes, encode_text-bytes, decode_utf8-bytes}
use silkjam.Protocol.Varint.{IsInt32, decode_varint}
use silkjam.Protocol.Varint.RoundTrip.{varint, encode_varint-varint, decode-varint, length-varint}
use silkjam.Protocol.Packet.{decode_string, decode_packet, encode_string, encode_packet}

decode_string_of :
    (bytes : Bytes) (n m : ℕ) (s : Text)
    → decode_varint bytes ≡ ok (n, pos m)
    → n + m ≤ length bytes
    → decode_utf8 (slice bytes (pos n) (pos (n + m))) ≡ ok s
    → decode_string bytes ≡ ok (pos (n + m), s)
unfolding decode_string
decode_string_of bytes n m s e h d = ground (arith, pos-+ n m)

decode_packet_of :
    (bytes : Bytes) (n m k : ℕ) (id : ℤ)
    → decode_varint bytes ≡ ok (n, pos m)
    → n + m ≤ length bytes
    → decode_varint (slice_from bytes (pos n)) ≡ ok (k, id)
    → decode_packet bytes
      ≡ ok (record {
        size = pos (n + m);
        id = id;
        payload = slice bytes (pos (n + k)) (pos (n + m));
      })
unfolding decode_packet
decode_packet_of bytes n m k id e h d = ground (arith, pos-+ n m)

-- The texts that can be sent: no surrogates, and fewer than 2^31 bytes of UTF-8.
abbrev pub IsSendable : Text → Type 0
IsSendable s = All IsScalar s × (length (text_bytes utf8_bytes s) < 2 ^ 31)

-- The bytes of a string and of a framed packet.
abbrev pub string_bytes : Text → Bytes
string_bytes s = let bytes : Bytes = text_bytes utf8_bytes s in varint (pos (length bytes)) ++ bytes

abbrev pub packet_bytes : ℤ → Bytes → Bytes
packet_bytes id payload =
    varint (pos (length (varint id) + length payload)) ++ (varint id ++ payload)

-- A frame adds at most ten bytes.
pub length-packet_bytes :
    (id : ℤ) (payload : Bytes)
    → IsInt32 id
    → length payload + 10 < 2 ^ 31
    → length (packet_bytes id payload) ≤ length payload + 10
length-packet_bytes id payload h fits =
    let size : ℕ = length (varint id) + length payload in
    let (low, high) = length-varint id h in
    omega (
      arith,
      high,
      length-varint (pos size) (omega (arith, high, fits)),
      length-append (varint (pos size)) (varint id ++ payload),
      length-append (varint id) payload,
    )

pub encode_string-bytes : (s : Text) → IsSendable s → encode_string s ≡ ok (string_bytes s)
unfolding encode_string
encode_string-bytes s h = ground (
  arith,
  encode_text-bytes utf8_bytes s h.0,
  encode_varint-varint (pos (length (text_bytes utf8_bytes s))),
)

pub encode_packet-bytes :
    (id : ℤ) (payload : Bytes)
    → IsInt32 id
    → length (varint id) + length payload < 2 ^ 31
    → encode_packet id payload ≡ ok (packet_bytes id payload)
unfolding encode_packet
encode_packet-bytes id payload h hl = ground (
  arith,
  encode_varint-varint id,
  encode_varint-varint (pos (length (varint id) + length payload)),
)

-- `decode_string` reads back a string, leaves what follows it, and counts its bytes.
pub decode_string-bytes :
    (s : Text) (rest : Bytes)
    → IsSendable s
    → decode_string (string_bytes s ++ rest) ≡ ok (pos (length (string_bytes s)), s)
decode_string-bytes s rest h =
    let b : Bytes = text_bytes utf8_bytes s in
    let v : Bytes = varint (pos (length b)) in
    rw (append_assoc v b rest, length-append v b)
      (decode_string_of (v ++ (b ++ rest)) (length v) (length b) s
        (decode-varint (pos (length b)) (b ++ rest) (omega arith))
        (omega (arith, length-append v (b ++ rest), length-append b rest))
        (ap decode_utf8 (slice-append v b rest _ _ refl refl) ∙ decode_utf8-bytes s h.0))

pub decode_packet-bytes :
    (id : ℤ) (payload rest : Bytes)
    → IsInt32 id
    → length (varint id) + length payload < 2 ^ 31
    → decode_packet (packet_bytes id payload ++ rest)
      ≡ ok (record { size = pos (length (packet_bytes id payload)); id = id; payload = payload })
decode_packet-bytes id payload rest h hl =
    rw (shape, length-append v (d ++ payload), length-append d payload)
      (decode_packet_of (v ++ (d ++ (payload ++ rest))) (length v) (length d + length payload)
          (length d) id (decode-varint _ _ (omega arith))
          (omega (
            arith,
            length-append v (d ++ (payload ++ rest)),
            length-append d (payload ++ rest),
            length-append payload rest,
          ))
          (ap decode_varint (slice_from-append v _ _ refl) ∙ decode-varint id (payload ++ rest) h)
        ∙ ap
            (λ x. ok (record {
              size = pos (length v + (length d + length payload));
              id = id;
              payload = x;
            }))
            inner)
  where
    d : Bytes
    d = varint id

    v : Bytes
    v = varint (pos (length d + length payload))

    shape : v ++ (d ++ payload) ++ rest ≡ v ++ (d ++ (payload ++ rest))
    shape = append_assoc v (d ++ payload) rest ∙ ap (◌++◌ v) (append_assoc d payload rest)

    ends : length v + (length d + length payload) ≡ length (v ++ d) + length payload
    ends = omega (arith, length-append v d)

    inner :
        slice
          (v ++ (d ++ (payload ++ rest)))
          (pos (length v + length d))
          (pos (length v + (length d + length payload)))
        ≡ payload
    inner =
        ap (λ x. slice x (pos (length v + length d)) (pos (length v + (length d + length payload))))
          (sym (append_assoc v d (payload ++ rest)))
        ∙ slice-append (v ++ d) payload rest (pos (length v + length d))
            (pos (length v + (length d + length payload))) (ap pos (sym (length-append v d)))
            (ap pos ends)

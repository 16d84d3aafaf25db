-- ===== src/Protocol/Packet/RoundTrip.antt =====
-- Each packet that `PacketWriter` encodes is decoded to the values that went in.
use silkjam.Prelude.{
  ℕ, ◌+◌, ◌^◌, ◌<◌, ◌≡◌, refl, ap, sym, ◌∙◌, [], ◌++◌, append_assoc, append-nil, length,
  length-append, arith,
}
use silkjam.Prelude.Int.{ℤ, pos, pos-+}
use silkjam.Protocol.Result.{ok}
use silkjam.Protocol.Bytes.{Bytes, slice, slice_from, to_big_endian, unpack, pack}
use silkjam.Protocol.Bytes.Laws.{slice-append, slice_from-append, unpack-pack, length-to_big_endian}
use silkjam.Protocol.Varint.{IsInt32, decode_varint}
use silkjam.Protocol.Varint.RoundTrip.{varint, encode_varint-varint, decode-varint, length-varint}
use silkjam.Protocol.Packet.{
  Packet, HandshakeRequest, decode_string, decode_packet, decode_handshake_packet,
  encode_handshake_packet,
}
use silkjam.Protocol.Packet.Frames.{
  IsSendable, string_bytes, packet_bytes, encode_string-bytes, encode_packet-bytes,
  decode_string-bytes, decode_packet-bytes,
}

-- A handshake that `encode_handshake_packet` accepts: 32-bit numbers, a 16-bit port, and an address
-- that leaves room for them in one packet.
pub record IsHandshake (r : HandshakeRequest) : Type 0 where
  pub version : IsInt32 r.protocol_version
  pub address : IsSendable r.server_address
  pub fits : length (string_bytes r.server_address) + 20 < 2 ^ 31
  pub port : r.server_port < 2 ^ 16
  pub state : IsInt32 r.next_state

abbrev pub handshake_payload : HandshakeRequest → Bytes
handshake_payload r =
    varint r.protocol_version
    ++ (string_bytes r.server_address ++ (to_big_endian 2 r.server_port ++ varint r.next_state))

decode_handshake_of :
    (n : ℤ) (payload : Bytes) (m a k : ℕ) (r : HandshakeRequest)
    → decode_varint payload ≡ ok (m, r.protocol_version)
    → decode_string (slice_from payload (pos m)) ≡ ok (pos a, r.server_address)
    → unpack 2 (slice payload (pos (m + a)) (pos (m + a + 2))) ≡ ok r.server_port
    → decode_varint (slice_from payload (pos (m + a + 2))) ≡ ok (k, r.next_state)
    → m + a + 2 + k ≡ length payload
    → decode_handshake_packet (record { size = n; id = pos 0; payload = payload }) ≡ ok (n, r)
unfolding decode_handshake_packet
decode_handshake_of n payload m a k r e1 e2 e3 e4 e5 =
    ground (arith, pos-+ m a, pos-+ (m + a) 2, pos-+ (m + a + 2) k)

-- The four fields, one after the other: what a slice at each field's place holds.
module _ (v a q s : Bytes) where
  slice_second : slice_from (v ++ (a ++ (q ++ s))) (pos (length v)) ≡ a ++ (q ++ s)
  slice_second = slice_from-append v (a ++ (q ++ s)) (pos (length v)) refl

  slice_third :
      {j : ℕ}
      → j ≡ length q
      → slice (v ++ (a ++ (q ++ s))) (pos (length v + length a)) (pos (length v + length a + j)) ≡ q
  slice_third {j} h =
      ap (λ x. slice x (pos (length v + length a)) (pos (length v + length a + j)))
        (sym (append_assoc v a (q ++ s)))
      ∙ slice-append (v ++ a) q s _ _ (ap pos start) (ap pos stop)
    where
      start : length v + length a ≡ length (v ++ a)
      start = sym (length-append v a)

      stop : length v + length a + j ≡ length (v ++ a) + length q
      stop = omega (arith, start)

  slice_fourth :
      {j : ℕ} → j ≡ length q → slice_from (v ++ (a ++ (q ++ s))) (pos (length v + length a + j)) ≡ s
  slice_fourth {j} h =
      ap (λ x. slice_from x (pos (length v + length a + j)))
        (sym (append_assoc v a (q ++ s)) ∙ sym (append_assoc (v ++ a) q s))
      ∙ slice_from-append (v ++ a ++ q) s _ (ap pos stop)
    where
      stop : length v + length a + j ≡ length (v ++ a ++ q)
      stop = omega (arith, length-append (v ++ a) q, length-append v a)

  length-fields : length (v ++ (a ++ (q ++ s))) ≡ length v + length a + length q + length s
  length-fields =
      omega (arith, length-append v (a ++ (q ++ s)), length-append a (q ++ s), length-append q s)

module _ (r : HandshakeRequest) (h : IsHandshake r) where
  pub payload_fits : length (varint (pos 0)) + length (handshake_payload r) < 2 ^ 31
  payload_fits = omega (
    arith,
    length-varint (pos 0),
    length-varint r.protocol_version h.version,
    length-varint r.next_state h.state,
    length-to_big_endian 2 r.server_port,
    length-fields (varint r.protocol_version) (string_bytes r.server_address)
        (to_big_endian 2 r.server_port) (varint r.next_state),
    h.fits,
  )

  pub encode_handshake-bytes :
      encode_handshake_packet r.protocol_version r.server_address r.server_port r.next_state
      ≡ ok (packet_bytes (pos 0) (handshake_payload r))
  unfolding encode_handshake_packet pack
  encode_handshake-bytes = ground (
    arith,
    encode_varint-varint r.protocol_version,
    encode_string-bytes r.server_address,
    encode_varint-varint r.next_state,
    encode_packet-bytes (pos 0) (handshake_payload r) (omega arith) payload_fits,
  )

  pub decode_handshake-payload :
      (n : ℤ)
      → decode_handshake_packet (record { size = n; id = pos 0; payload = handshake_payload r })
        ≡ ok (n, r)
  decode_handshake-payload n =
      decode_handshake_of n (handshake_payload r) (length v) (length a) (length s) r
        (decode-varint r.protocol_version _ h.version)
        (ap decode_string (slice_second v a q s)
          ∙ decode_string-bytes r.server_address (q ++ s) h.address)
        (ap (unpack 2) (slice_third v a q s width) ∙ unpack-pack 2 r.server_port h.port)
        (ap decode_varint (slice_fourth v a q s width ∙ sym (append-nil s))
          ∙ decode-varint r.next_state [] h.state)
        (omega (arith, length-fields v a q s, width))
    where
      v : Bytes
      v = varint r.protocol_version

      a : Bytes
      a = string_bytes r.server_address

      q : Bytes
      q = to_big_endian 2 r.server_port

      s : Bytes
      s = varint r.next_state

      width : 2 ≡ length q
      width = sym (length-to_big_endian 2 r.server_port)

-- A handshake is read back from the front of any stream, with the number of its bytes.
pub handshake_round_trip :
    (r : HandshakeRequest) (rest : Bytes)
    → IsHandshake r
    → (bytes : Bytes) × (p : Packet) × (encode_handshake_packet r.protocol_version r.server_address
          r.server_port r.next_state
        ≡ ok bytes)
      × (decode_packet (bytes ++ rest) ≡ ok p)
      × (decode_handshake_packet p ≡ ok (pos (length bytes), r))
handshake_round_trip r rest h = (
  packet_bytes (pos 0) (handshake_payload r),
  _,
  encode_handshake-bytes r h,
  decode_packet-bytes (pos 0) (handshake_payload r) rest (omega arith) (payload_fits r h),
  decode_handshake-payload r h _,
)

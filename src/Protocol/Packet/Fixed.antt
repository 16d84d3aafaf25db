-- ===== src/Protocol/Packet/Fixed.antt =====
-- Status request, ping/pong, keepalive and JSON packets, and lengths that are not positive.
use silkjam.Prelude.{
  ℕ, suc, ◌+◌, ◌-◌, ◌^◌, ◌≤◌, ◌<◌, ◌≡◌, refl, subst, [], ◌∷◌, ◌++◌, append-nil, length, ==_refl,
  arith,
}
use silkjam.Prelude.Int.{ℤ, pos, negsuc, ◌+ℤ◌, ◌≤ℤ◌, ◌<ℤ◌, +ℤ_parts}
use silkjam.Protocol.Result.{ok, err, protocol}
use silkjam.Protocol.Bytes.{Bytes, slice, slice_from, to_big_endian, pack_q}
use silkjam.Protocol.Bytes.Laws.{unpack_q-pack_q, length-pack_q}
use silkjam.Protocol.Text.{Text}
use silkjam.Protocol.Varint.{IsInt32, decode_varint}
use silkjam.Protocol.Varint.RoundTrip.{varint, length-varint}
use silkjam.Protocol.Packet.{
  Packet, decode_string, decode_packet, decode_request_packet, decode_long_packet,
  decode_pingpong_packet, decode_keepalive_packet, encode_request_packet, encode_pingpong_packet,
  encode_keepalive_packet, JsonCodec, decode_json_packet, encode_json_packet,
}
use silkjam.Protocol.Packet.Frames.{
  IsSendable, string_bytes, packet_bytes, encode_string-bytes, encode_packet-bytes,
  decode_string-bytes, decode_packet-bytes,
}

-- The values of a 64-bit field.
abbrev pub IsInt64 : ℤ → Type 0
IsInt64 v = (negsuc (2 ^ 63 - 1) ≤ℤ v) × (v ≤ℤ pos (2 ^ 63 - 1))

pub pack_q_total : (v : ℤ) → IsInt64 v → (bytes : Bytes) × (pack_q v ≡ ok bytes)
unfolding pack_q
pack_q_total (pos n) h = (to_big_endian 8 n, ground arith)
pack_q_total (negsuc n) h = (to_big_endian 8 (2 ^ 64 - suc n), ground arith)

pub long_payload :
    (n id v : ℤ) (bytes : Bytes)
    → pack_q v ≡ ok bytes
    → decode_long_packet id (record { size = n; id = id; payload = bytes }) ≡ ok (n, v)
unfolding decode_long_packet
long_payload n id v bytes e = ground (arith, unpack_q-pack_q v e, length-pack_q v e)

-- The bytes of a ping or pong.
pub encode_pingpong-bytes :
    (v : ℤ) (bytes : Bytes)
    → pack_q v ≡ ok bytes
    → encode_pingpong_packet v ≡ ok (packet_bytes (pos 1) bytes)
unfolding encode_pingpong_packet
encode_pingpong-bytes v bytes e = rw e (
    encode_packet-bytes (pos 1) bytes (omega arith)
      (omega (arith, length-varint (pos 1), length-pack_q v e)))

-- Ping/pong and keepalive packets carry every signed 64-bit value, and each decoder refuses the
-- packet of the other.
long_round_trip :
    (v : ℤ) (rest : Bytes)
    → IsInt64 v
    → (ping : Bytes) × (alive : Bytes) × (p : Packet) × (q : Packet) × (encode_pingpong_packet v
        ≡ ok ping)
      × (encode_keepalive_packet v ≡ ok alive)
      × (decode_packet (ping ++ rest) ≡ ok p)
      × (decode_packet (alive ++ rest) ≡ ok q)
      × (decode_pingpong_packet p ≡ ok (pos (length ping), v))
      × (decode_keepalive_packet q ≡ ok (pos (length alive), v))
      × (decode_pingpong_packet q ≡ err protocol)
      × (decode_keepalive_packet p ≡ err protocol)
unfolding encode_pingpong_packet encode_keepalive_packet decode_pingpong_packet
    decode_keepalive_packet
long_round_trip v rest h =
    let (bytes, e) = pack_q_total v h in
    let room : (id : ℤ) → IsInt32 id → length (varint id) + length bytes < 2 ^ 31 =
      λ id hid. omega (arith, length-varint id hid, length-pack_q v e) in
    (
      packet_bytes (pos 1) bytes,
      packet_bytes (pos 31) bytes,
      _,
      _,
      encode_pingpong-bytes v bytes e,
      rw e (encode_packet-bytes (pos 31) bytes (omega arith) (room _ (omega arith))),
      decode_packet-bytes (pos 1) bytes rest (omega arith) (room _ (omega arith)),
      decode_packet-bytes (pos 31) bytes rest (omega arith) (room _ (omega arith)),
      long_payload _ (pos 1) v bytes e,
      long_payload _ (pos 31) v bytes e,
      refl,
      refl,
    )

-- The status request: an empty packet, and any other payload under its id is refused.
request_round_trip :
    (rest : Bytes)
    → (bytes : Bytes) × (p : Packet) × (encode_request_packet ≡ ok bytes)
      × (decode_packet (bytes ++ rest) ≡ ok p)
      × (decode_request_packet p ≡ ok (pos (length bytes)))
      × ((b : ℕ) (more : Bytes)
          → decode_request_packet (record p { payload = b ∷ more }) ≡ err protocol)
unfolding encode_request_packet decode_request_packet
request_round_trip rest = (
  packet_bytes (pos 0) [],
  _,
  encode_packet-bytes (pos 0) [] (omega arith) (omega (arith, length-varint (pos 0))),
  decode_packet-bytes (pos 0) [] rest (omega arith) (omega (arith, length-varint (pos 0))),
  refl,
  λ b more. ground arith,
)

module _ (codec : JsonCodec) where
  json_payload :
      (n id : ℤ) (payload : Bytes) (s : Text) (value : codec.Json)
      → decode_string payload ≡ ok (pos (length payload), s)
      → codec.loads s ≡ ok value
      → decode_json_packet codec (record { size = n; id = id; payload = payload })
        ≡ ok (n, (id, value))
  unfolding decode_json_packet
  json_payload n id payload s value e f = rw e (rw (==_refl (length payload + 0)) (rw f))

-- A JSON packet carries a value that the JSON library reads back from what it prints, if the text
-- fits a packet.
module _ (codec : JsonCodec) (id : ℤ) (value : codec.Json) (hid : IsInt32 id)
    (h : IsSendable (codec.dumps value)) where
  pub encode_json-bytes :
      length (string_bytes (codec.dumps value)) + 5 < 2 ^ 31
      → encode_json_packet codec id value ≡ ok (packet_bytes id (string_bytes (codec.dumps value)))
  unfolding encode_json_packet
  encode_json-bytes fits = rw (encode_string-bytes (codec.dumps value) h) (
      encode_packet-bytes id (string_bytes (codec.dumps value)) hid
        (omega (arith, length-varint id hid, fits)))

  pub decode_json-bytes :
      (n : ℤ)
      → codec.loads (codec.dumps value) ≡ ok value
      → decode_json_packet codec
          (record { size = n; id = id; payload = string_bytes (codec.dumps value) })
        ≡ ok (n, (id, value))
  decode_json-bytes n reads =
      let s : Text = codec.dumps value in
      let b : Bytes = string_bytes s in
      json_payload codec n id b s value
        (subst (λ x. decode_string x ≡ ok (pos (length b), s)) (append-nil b)
          (decode_string-bytes s [] h))
        reads

-- A packet length below zero passes as a frame: the packet counts fewer bytes than its own length
-- prefix takes, and the count can be zero or negative.
pub negative_length :
    (bytes : Bytes) (n k m : ℕ) (id : ℤ)
    → decode_varint bytes ≡ ok (n, negsuc m)
    → decode_varint (slice_from bytes (pos n)) ≡ ok (k, id)
    → n ≤ length bytes
    → (p : Packet) × (decode_packet bytes ≡ ok p) × (p.size <ℤ pos n) × (p.id ≡ id)
unfolding decode_packet
negative_length bytes n k m id e f h = (
  record {
    size = pos n +ℤ negsuc m;
    id = id;
    payload = slice bytes (pos (n + k)) (pos n +ℤ negsuc m);
  },
  ground (arith, +ℤ_parts (pos n) (negsuc m)),
  omega (arith, +ℤ_parts (pos n) (negsuc m)),
  refl,
)

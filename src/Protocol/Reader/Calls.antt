-- ===== src/Protocol/Reader/Calls.antt =====
-- The methods of `PacketReader` in app/backend/core/protocol.py that read one packet of a kind.
use silkjam.Prelude.Int.{ℤ}
use silkjam.Protocol.Result.{Result, ok, err}
use silkjam.Protocol.Packet.{
  Packet, HandshakeRequest, LoginStart, JsonCodec, decode_handshake_packet, decode_request_packet,
  decode_json_packet, decode_pingpong_packet, decode_keepalive_packet, decode_login_start_packet,
}
use silkjam.Protocol.Reader.{PacketReader, read_packet}

-- `(...)[1]`
abbrev pub second {ℓ} : {A : Type ℓ} → Result (ℤ × A) → Result A
second (ok (n, a)) = ok a
second (err e) = err e

-- `self.decode(await self.read_packet())`
abbrev pub decoded_by {ℓ} :
    {A : Type ℓ} → (Packet → Result A) → Result Packet × PacketReader → Result A × PacketReader
decoded_by decode (ok p, s) = (decode p, s)
decoded_by decode (err e, s) = (err e, s)

-- The request has no value.
abbrev no_value : Result ℤ → Result (Unit {0})
no_value (ok n) = ok tt
no_value (err e) = err e

unfoldable pub read_handshake_packet : PacketReader → Result HandshakeRequest × PacketReader
read_handshake_packet s = decoded_by (λ p. second (decode_handshake_packet p)) (read_packet s)

unfoldable pub read_request_packet : PacketReader → Result (Unit {0}) × PacketReader
read_request_packet s = decoded_by (λ p. no_value (decode_request_packet p)) (read_packet s)

unfoldable pub read_json_packet :
    (codec : JsonCodec) → PacketReader → Result (ℤ × codec.Json) × PacketReader
read_json_packet codec s = decoded_by (λ p. second (decode_json_packet codec p)) (read_packet s)

unfoldable pub read_pingpong_packet : PacketReader → Result ℤ × PacketReader
read_pingpong_packet s = decoded_by (λ p. second (decode_pingpong_packet p)) (read_packet s)

unfoldable pub read_keepalive_packet : PacketReader → Result ℤ × PacketReader
read_keepalive_packet s = decoded_by (λ p. second (decode_keepalive_packet p)) (read_packet s)

unfoldable pub read_login_start_packet : ℤ → PacketReader → Result LoginStart × PacketReader
read_login_start_packet version s =
    decoded_by (λ p. second (decode_login_start_packet p version)) (read_packet s)

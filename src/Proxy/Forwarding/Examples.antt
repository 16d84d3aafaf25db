-- ===== src/Proxy/Forwarding/Examples.antt =====
-- A client that joins, and one whose login is not understood.
use silkjam.Prelude.{◌≡◌, refl, none, [], ◌∷◌, ◌++◌, arith}
use silkjam.Prelude.Int.{pos, ◌+ℤ◌}
use silkjam.Protocol.Result.{ok}
use silkjam.Protocol.Bytes.{
  Bytes, slice, slice_from, unpack, pack, big_endian, to_big_endian, bytes_eq,
}
use silkjam.Protocol.Text.{
  utf8_bytes, utf8_next, encode_text, decode_text, encode_utf8, decode_utf8,
}
use silkjam.Protocol.Varint.{encode_varint, decode_varint}
use silkjam.Protocol.Varint.RoundTrip.{varint}
use silkjam.Protocol.Packet.{
  HandshakeRequest, LoginStart, encode_handshake_packet, encode_login_start_packet, decode_packet,
  decode_handshake_packet, decode_login_start_packet, decode_string, encode_string, encode_packet,
}
use silkjam.Protocol.Packet.RoundTrip.{IsHandshake}
use silkjam.Protocol.Packet.Login.{IsLogin}
use silkjam.Protocol.Legacy.{decode_legacy_ping}
use silkjam.Proxy.Forwarding.{
  read_packet, read_modern, read_handshake, read_login_start, initial_data, forwarded,
}
use silkjam.Proxy.Forwarding.Transparent.{joining_unchanged}

abbrev joining : HandshakeRequest
joining = record {
  protocol_version = pos 47;
  server_address = b'm' ∷ [];
  server_port = 25565;
  next_state = pos 2;
}

joining-IsHandshake : IsHandshake joining
unfolding varint utf8_bytes
joining-IsHandshake = record {
  version = omega arith;
  address = omega arith;
  fits = omega arith;
  port = omega arith;
  state = omega arith;
}

abbrev player : LoginStart
player = record { username = b'a' ∷ b'b' ∷ []; player_id = none; extra_data = [] }

player-IsLogin : IsLogin (pos 47) player
unfolding varint utf8_bytes
player-IsLogin = record { fields = (refl, refl); name = omega arith; fits = omega arith }

joining_unchanged_example :
    (start : Bytes) × (login : Bytes) × (encode_handshake_packet (pos 47) (b'm' ∷ []) 25565 (pos 2)
      ≡ ok start)
    × (encode_login_start_packet player.username player.player_id player.extra_data ≡ ok login)
    × (forwarded (start ++ (login ++ (9 ∷ []))) ≡ ok (start ++ (login ++ (9 ∷ []))))
joining_unchanged_example =
    joining_unchanged joining player (9 ∷ []) joining-IsHandshake player-IsLogin refl

-- A packet with another id in the place of the login start is read and not sent on.
login_swallowed :
    forwarded (7 ∷ 0 ∷ 47 ∷ 1 ∷ 109 ∷ 99 ∷ 221 ∷ 2 ∷ 1 ∷ 5 ∷ 9 ∷ [])
    ≡ ok (7 ∷ 0 ∷ 47 ∷ 1 ∷ 109 ∷ 99 ∷ 221 ∷ 2 ∷ 9 ∷ [])
unfolding forwarded read_handshake read_modern read_packet read_login_start initial_data
    decode_legacy_ping decode_packet decode_varint decode_handshake_packet decode_login_start_packet
    decode_string encode_handshake_packet encode_packet encode_string encode_varint slice slice_from
    unpack pack big_endian to_big_endian encode_utf8 decode_utf8 encode_text decode_text utf8_bytes
    utf8_next bytes_eq ◌+ℤ◌
login_swallowed = refl

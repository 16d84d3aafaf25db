-- ===== src/Protocol/Examples.antt =====
-- Runs of the wire format, and the theorems at concrete inputs.
use silkjam.Prelude.{
  ℕ, ◌≤◌, ◌≡◌, refl, false, some, [], ◌∷◌, ◌++◌, length, replicate, length-replicate, arith,
}
use silkjam.Prelude.Int.{pos, negsuc, ◌<ℤ◌}
use silkjam.Protocol.Result.{ok, err, protocol, unicode_error, value_error}
use silkjam.Protocol.Bytes.{Bytes, slice_from}
use silkjam.Protocol.Text.{
  Text, encode_utf8, decode_utf8, encode_utf16, decode_utf16, encode_text, decode_text, utf8_bytes,
  utf8_next,
}
use silkjam.Protocol.Text.RoundTrip.{text_round_trip}
use silkjam.Protocol.Varint.{decode_varint, encode_varint}
use silkjam.Protocol.Varint.RoundTrip.{varint, varint_round_trip}
use silkjam.Protocol.Packet.{
  Packet, HandshakeRequest, LoginStart, decode_packet, decode_handshake_packet,
  encode_handshake_packet, decode_login_start_packet, encode_login_start_packet, encode_packet,
}
use silkjam.Protocol.Packet.RoundTrip.{IsHandshake, handshake_round_trip}
use silkjam.Protocol.Packet.Login.{IsLogin, login_round_trip}
use silkjam.Protocol.Packet.Fixed.{negative_length}
use silkjam.Protocol.Legacy.{LegacyPingRequest, decode_legacy_ping, encode_legacy_ping}
use silkjam.Protocol.Legacy.RoundTrip.{legacy_round_trip}
use silkjam.Protocol.Legacy.Discriminator.{handshake_not_legacy}
use silkjam.Protocol.Buffer.{allocate_buffer}
use silkjam.Protocol.Buffer.Allocation.{marked, halving_fails}

encode_minus_one : encode_varint (negsuc 0) ≡ ok (0xff ∷ 0xff ∷ 0xff ∷ 0xff ∷ 0x0f ∷ [])
unfolding encode_varint
encode_minus_one = refl

decode_300 : decode_varint (0xac ∷ 0x02 ∷ 7 ∷ []) ≡ ok (2, pos 300)
unfolding decode_varint
decode_300 = refl

-- "é" in UTF-8.
encode_accent : encode_utf8 (0xe9 ∷ []) ≡ ok (0xc3 ∷ 0xa9 ∷ [])
unfolding encode_text utf8_bytes
encode_accent = refl

-- An overlong form is refused.
decode_overlong : decode_utf8 (0xc0 ∷ 0x80 ∷ []) ≡ err unicode_error
unfolding decode_text utf8_next
decode_overlong = refl

astral_text :
    (narrow wide : Bytes) × (encode_utf8 (0x1f600 ∷ b'a' ∷ []) ≡ ok narrow)
    × (encode_utf16 (0x1f600 ∷ b'a' ∷ []) ≡ ok wide)
    × (decode_utf8 narrow ≡ ok (0x1f600 ∷ b'a' ∷ []))
    × (decode_utf16 wide ≡ ok (0x1f600 ∷ b'a' ∷ []))
astral_text = text_round_trip (0x1f600 ∷ b'a' ∷ []) (omega arith)

varint_round_trip_example :
    (bytes : Bytes) × (encode_varint (negsuc 41) ≡ ok bytes)
    × (1 ≤ length bytes)
    × (length bytes ≤ 5)
    × (decode_varint (bytes ++ (9 ∷ [])) ≡ ok (length bytes, negsuc 41))
varint_round_trip_example = varint_round_trip (negsuc 41) (9 ∷ []) (omega arith)

abbrev localhost : Text
localhost = b'm' ∷ b'c' ∷ b'.' ∷ b'l' ∷ b'o' ∷ b'c' ∷ b'a' ∷ b'l' ∷ []

abbrev join : HandshakeRequest
join = record {
  protocol_version = pos 769;
  server_address = localhost;
  server_port = 25565;
  next_state = pos 2;
}

join-IsHandshake : IsHandshake join
unfolding varint utf8_bytes
join-IsHandshake = record {
  version = omega arith;
  address = omega arith;
  fits = omega arith;
  port = omega arith;
  state = omega arith;
}

handshake_round_trip_example :
    (bytes : Bytes) × (p : Packet) × (encode_handshake_packet (pos 769) localhost 25565 (pos 2)
      ≡ ok bytes)
    × (decode_packet (bytes ++ (1 ∷ [])) ≡ ok p)
    × (decode_handshake_packet p ≡ ok (pos (length bytes), join))
handshake_round_trip_example = handshake_round_trip join (1 ∷ []) join-IsHandshake

abbrev alex : LoginStart
alex = record {
  username = b'a' ∷ b'l' ∷ b'e' ∷ b'x' ∷ [];
  player_id = some (replicate 16 7);
  extra_data = 1 ∷ 2 ∷ [];
}

alex-IsLogin : IsLogin (pos 769) alex
unfolding varint utf8_bytes
alex-IsLogin = record {
  fields = (replicate 16 7, refl, refl);
  name = omega arith;
  fits = omega arith;
}

login_round_trip_example :
    (bytes : Bytes) × (p : Packet) × (encode_login_start_packet alex.username alex.player_id
        alex.extra_data
      ≡ ok bytes)
    × (decode_packet (bytes ++ []) ≡ ok p)
    × (decode_login_start_packet p (pos 769) ≡ ok (pos (length bytes), alex))
login_round_trip_example = login_round_trip (pos 769) alex [] alex-IsLogin

-- A length of -5 in five bytes: the packet counts no byte at all.
negative_length_example :
    (p : Packet) × (decode_packet (0xfb ∷ 0xff ∷ 0xff ∷ 0xff ∷ 0x0f ∷ 0 ∷ []) ≡ ok p)
    × (p.size <ℤ pos 5)
    × (p.id ≡ pos 0)
unfolding decode_varint slice_from
negative_length_example =
    negative_length (0xfb ∷ 0xff ∷ 0xff ∷ 0xff ∷ 0x0f ∷ 0 ∷ []) 5 1 4 (pos 0) refl refl
      (omega arith)

abbrev ping : LegacyPingRequest
ping = record { protocol_version = 127; hostname = localhost; port = 25565 }

legacy_round_trip_example :
    (bytes : Bytes) × (encode_legacy_ping 127 localhost 25565 ≡ ok bytes)
    × (decode_legacy_ping (bytes ++ (0 ∷ [])) ≡ ok (length bytes, ping))
legacy_round_trip_example =
    legacy_round_trip ping (0 ∷ [])
      (record { version = omega arith; name = omega arith; size = omega arith; port = omega arith })

handshake_not_legacy_example :
    (bytes : Bytes) × (encode_packet (pos 0) (replicate 253 1) ≡ ok bytes)
    × (decode_legacy_ping (bytes ++ []) ≡ err protocol)
handshake_not_legacy_example =
    handshake_not_legacy 1 (replicate 252 1) [] (omega (arith, length-replicate {A = ℕ} 252 1))

halving_fails_example :
    allocate_buffer (marked (replicate 8192 1) 3500 8192 (pos 0) 8192) false ≡ err value_error
halving_fails_example =
    halving_fails (replicate 8192 1) 3500 8192 (pos 0) 8192 (length-replicate {A = ℕ} 8192 1)
      (omega arith) (omega arith) (omega arith) (omega arith) (omega arith)

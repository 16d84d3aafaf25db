-- ===== src/Proxy/Forwarding/Transparent.antt =====
-- What reaches the backend of a client that joins.
use silkjam.Prelude.{
  ◌+◌, ◌^◌, ◌≤◌, ◌<◌, ◌≡◌, refl, sym, ap, ap₂, ◌∙◌, true, some, [], ◌∷◌, ◌++◌, length,
  length-append, append_assoc, arith,
}
use silkjam.Prelude.Int.{pos, ◌+ℤ◌, eq_ℤ, pos-+}
use silkjam.Protocol.Result.{protocol, ok, err}
use silkjam.Protocol.Bytes.{Bytes, to_big_endian}
use silkjam.Protocol.Bytes.Laws.{slice_from-append, length-to_big_endian}
use silkjam.Protocol.Varint.RoundTrip.{varint, length-varint}
use silkjam.Protocol.Packet.{
  Packet, HandshakeRequest, LoginStart, encode_handshake_packet, encode_login_start_packet,
}
use silkjam.Protocol.Packet.Frames.{packet_bytes, decode_packet-bytes, string_bytes}
use silkjam.Protocol.Packet.RoundTrip.{
  IsHandshake, handshake_payload, payload_fits, encode_handshake-bytes, decode_handshake-payload,
}
use silkjam.Protocol.Packet.Login.{IsLogin, login_payload, encode_login-bytes, decode_login-payload}
use silkjam.Protocol.Legacy.{decode_legacy_ping}
use silkjam.Protocol.Legacy.Discriminator.{decode_legacy_ping-packet}
use silkjam.Proxy.Forwarding.{
  Reader, unparsed, modern, read_packet, read_modern, read_handshake, read_login_start,
  initial_data, forwarded, login_data,
}

-- A reader that has parsed some bytes and has others before it.
abbrev at_bytes : Bytes → Bytes → Reader
at_bytes front back = record { bytes = front ++ back; i = pos (length front) }

unparsed-at : (front back : Bytes) → unparsed (at_bytes front back) ≡ back
unparsed-at front back = slice_from-append front back (pos (length front)) refl

abbrev packet_of : Bytes → Packet
packet_of payload = record {
  size = pos (length (packet_bytes (pos 0) payload));
  id = pos 0;
  payload = payload;
}

moved :
    (front back p : Bytes)
    → record { bytes = front ++ (p ++ back); i = pos (length front) +ℤ pos (length p) }
      ≡ at_bytes (front ++ p) back
moved front back p =
    ap₂ (λ b n. record { bytes = b; i = n }) (sym (append_assoc front p back))
      (pos-+ (length front) (length p) ∙ ap pos (sym (length-append front p)))

read_packet-at :
    (front payload back : Bytes)
    → length (varint (pos 0)) + length payload < 2 ^ 31
    → read_packet (at_bytes front (packet_bytes (pos 0) payload ++ back))
      ≡ ok (packet_of payload, at_bytes (front ++ packet_bytes (pos 0) payload) back)
unfolding read_packet
read_packet-at front payload back fits =
    let p = packet_bytes (pos 0) payload in
    rw
      (
        read_packet,
        unparsed-at front (p ++ back),
        decode_packet-bytes (pos 0) payload back (omega arith) fits,
      )
      (ap (λ r. ok (packet_of payload, r)) (moved front back p))

refused :
    (xs rest : Bytes)
    → 1 ≤ length xs
    → length xs + 7 < 2 ^ 31
    → decode_legacy_ping (packet_bytes (pos 0) xs ++ rest) ≡ err protocol
refused [] rest some_bytes fits = absurd (omega arith)
refused (b ∷ xs) rest some_bytes fits = decode_legacy_ping-packet b xs rest

module _ (h : HandshakeRequest) (ok_h : IsHandshake h) where
  abbrev start : Bytes
  start = packet_bytes (pos 0) (handshake_payload h)

  payload_bounds : (1 ≤ length (handshake_payload h)) × (length (handshake_payload h) + 7 < 2 ^ 31)
  payload_bounds =
      let v : Bytes = varint h.protocol_version in
      let a : Bytes = string_bytes h.server_address in
      let q : Bytes = to_big_endian 2 h.server_port in
      let s : Bytes = varint h.next_state in
      let first = length-varint h.protocol_version ok_h.version in
      let last = length-varint h.next_state ok_h.state in
      let port = length-to_big_endian 2 h.server_port in
      (
        omega (arith, length-append v (a ++ (q ++ s)), first.0),
        omega (
          arith,
          length-append v (a ++ (q ++ s)),
          length-append a (q ++ s),
          length-append q s,
          first.1,
          last.1,
          port,
          ok_h.fits,
        ),
      )

  start_refused : (rest : Bytes) → decode_legacy_ping (start ++ rest) ≡ err protocol
  start_refused rest =
      refused (handshake_payload h) rest (omega (arith, payload_bounds.0))
        (omega (arith, payload_bounds.1))

  read_handshake-start :
      (rest : Bytes)
      → read_handshake (at_bytes [] (start ++ rest)) ≡ ok (modern h, at_bytes start rest)
  unfolding read_handshake read_modern
  read_handshake-start rest =
      rw
        (
          read_handshake,
          unparsed-at [] (start ++ rest),
          start_refused rest,
          read_modern,
          read_packet-at [] (handshake_payload h) rest (payload_fits h ok_h),
          decode_handshake-payload h ok_h (pos (length start)),
        )
        refl

  module _ (l : LoginStart) (ok_l : IsLogin h.protocol_version l) where
    abbrev login : Bytes
    login = packet_bytes (pos 0) (login_payload l)

    login_fits : length (varint (pos 0)) + length (login_payload l) < 2 ^ 31
    login_fits = omega (arith, length-varint (pos 0), ok_l.fits)

    read_login_start-at :
        (front rest : Bytes)
        → read_login_start h.protocol_version (at_bytes front (login ++ rest))
          ≡ (some l, at_bytes (front ++ login) rest)
    unfolding read_login_start
    read_login_start-at front rest =
        rw
          (
            read_login_start,
            read_packet-at front (login_payload l) rest login_fits,
            decode_login-payload (pos (length login)) h.protocol_version l.username ok_l.name
                l.player_id l.extra_data ok_l.fields,
          )
          refl

    login_data-at :
        (front rest : Bytes)
        → login_data (read_login_start h.protocol_version (at_bytes front (login ++ rest)))
          ≡ ok (login ++ rest)
    login_data-at front rest =
        ap login_data (read_login_start-at front rest)
        ∙ rw (encode_login-bytes h.protocol_version l ok_l, unparsed-at (front ++ login) rest) refl

    initial_data-start :
        (rest : Bytes)
        → eq_ℤ h.next_state (pos 2) ≡ true
        → initial_data (modern h) (at_bytes start (login ++ rest)) ≡ ok (start ++ (login ++ rest))
    unfolding initial_data
    initial_data-start rest joins =
        rw (initial_data, encode_handshake-bytes h ok_h, joins, login_data-at start rest) refl

    forwarded-start :
        (rest : Bytes)
        → eq_ℤ h.next_state (pos 2) ≡ true
        → forwarded (start ++ (login ++ rest)) ≡ ok (start ++ (login ++ rest))
    unfolding forwarded
    forwarded-start rest joins =
        rw (forwarded, read_handshake-start (login ++ rest)) (initial_data-start rest joins)

-- Of a client that joins, with a handshake and a login start as their encoders write them and
-- anything behind, the backend gets the same bytes that the client sent: the handshake is not taken
-- for a legacy ping, both packets are encoded again as they were, and what was not parsed follows.
pub joining_unchanged :
    (h : HandshakeRequest) (l : LoginStart) (rest : Bytes)
    → IsHandshake h
    → IsLogin h.protocol_version l
    → eq_ℤ h.next_state (pos 2) ≡ true
    → (start : Bytes) × (login : Bytes) × (encode_handshake_packet h.protocol_version
          h.server_address h.server_port h.next_state
        ≡ ok start)
      × (encode_login_start_packet l.username l.player_id l.extra_data ≡ ok login)
      × (forwarded (start ++ (login ++ rest)) ≡ ok (start ++ (login ++ rest)))
joining_unchanged h l rest ok_h ok_l joins = (
  packet_bytes (pos 0) (handshake_payload h),
  packet_bytes (pos 0) (login_payload l),
  encode_handshake-bytes h ok_h,
  encode_login-bytes h.protocol_version l ok_l,
  forwarded-start h ok_h l ok_l rest joins,
)

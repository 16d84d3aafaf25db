-- ===== src/Proxy/Forwarding.antt =====
-- What a proxy reads of a client before it forwards it, and what it sends to the backend first, when
-- the bytes that it needs are there. The read loops of `PacketReader` and the sockets are left out.
pub mod Transparent
mod Examples
use silkjam.Prelude.{ℕ, Bool, true, false, Option, none, some, List, [], ◌++◌, if◌then◌else◌}
use silkjam.Prelude.Int.{ℤ, pos, ◌+ℤ◌, eq_ℤ}
use silkjam.Protocol.Result.{
  Error, protocol, incomplete, struct_error, unicode_error, json_error, connection_reset,
  value_error, endless, Result, ok, err, ◌>>=◌,
}
use silkjam.Protocol.Bytes.{Bytes, slice_from}
use silkjam.Protocol.Text.{Text}
use silkjam.Protocol.Packet.{
  Packet, HandshakeRequest, LoginStart, decode_packet, decode_handshake_packet,
  decode_login_start_packet, encode_handshake_packet, encode_login_start_packet,
}
use silkjam.Protocol.Legacy.{LegacyPingRequest, decode_legacy_ping, encode_legacy_ping}

-- A `PacketReader` with all bytes of the client and the start of the unparsed ones.
pub record Reader : Type 0 where
  pub bytes : Bytes
  pub i : ℤ

abbrev pub unparsed : Reader → Bytes
unparsed r = slice_from r.bytes r.i

pub data Handshake : Type 0 where
  legacy : LegacyPingRequest → Handshake
  modern : HandshakeRequest → Handshake

unfoldable pub read_packet : Reader → Result (Packet × Reader)
read_packet r = do p ← decode_packet (unparsed r); ok (p, record r { i = r.i +ℤ p.size })

unfoldable pub read_modern : Reader → Result (Handshake × Reader)
unfolding read_packet
read_modern r = do (p, r') ← read_packet r; (size, h) ← decode_handshake_packet p; ok (modern h, r')

-- The start of `_identify_backend`: a legacy ping, or else a modern handshake.
unfoldable pub read_handshake : Reader → Result (Handshake × Reader)
unfolding read_modern
read_handshake r = elim (decode_legacy_ping (unparsed r)) [
  | ok (size, ping) ↦ ok (legacy ping, record r { i = r.i +ℤ pos size })
  | err e ↦ elim e [
    | protocol ↦ read_modern r
    | incomplete ↦ err incomplete
    | struct_error ↦ err struct_error
    | unicode_error ↦ err unicode_error
    | json_error ↦ err json_error
    | connection_reset ↦ err connection_reset
    | value_error ↦ err value_error
    | endless ↦ err endless
  ]
]

-- `_read_login_start`, which gives none for any exception; a packet that was read is consumed.
unfoldable pub read_login_start : ℤ → Reader → Option LoginStart × Reader
unfolding read_packet
read_login_start version r = elim (read_packet r) [
  | err e ↦ (none, r)
  | ok (p, r') ↦ elim (decode_login_start_packet p version) [
    | err e ↦ (none, r')
    | ok (size, login) ↦ (some login, r')
  ]
]

abbrev pub is_joining : Handshake → Bool
is_joining (legacy ping) = false
is_joining (modern h) = eq_ℤ h.next_state (pos 2)

abbrev pub encode_handshake : Handshake → Result Bytes
encode_handshake (legacy ping) = encode_legacy_ping ping.protocol_version ping.hostname ping.port
encode_handshake (modern h) =
    encode_handshake_packet h.protocol_version h.server_address h.server_port h.next_state

abbrev pub version_of : Handshake → ℤ
version_of (legacy ping) = pos ping.protocol_version
version_of (modern h) = h.protocol_version

-- The bytes for the login start, if it was read, and all that is unparsed.
abbrev pub login_data : Option LoginStart × Reader → Result Bytes
login_data (none, r) = ok (unparsed r)
login_data (some l, r) = do
  login ← encode_login_start_packet l.username l.player_id l.extra_data
  ok (login ++ unparsed r)

-- `initial_data` of `_forward_to_backend`.
unfoldable pub initial_data : Handshake → Reader → Result Bytes
unfolding read_login_start
initial_data h r = do
  start ← encode_handshake h
  rest ← (if is_joining h then login_data (read_login_start (version_of h) r) else ok (unparsed r))
  ok (start ++ rest)

-- What the backend gets of a client that is forwarded.
unfoldable pub forwarded : Bytes → Result Bytes
unfolding read_handshake initial_data
forwarded bytes = do (h, r) ← read_handshake (record { bytes = bytes; i = pos 0 }); initial_data h r

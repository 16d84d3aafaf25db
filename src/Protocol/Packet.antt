-- ===== src/Protocol/Packet.antt =====
-- The decoders of `PacketReader` and the encoders of `PacketWriter` in
-- app/backend/core/protocol.py, but the legacy ping.
pub mod Frames
pub mod RoundTrip
pub mod Login
pub mod Fixed
use silkjam.Prelude.{
  ℕ, zero, suc, ◌+◌, ◌-◌, ◌<◌, Bool, true, false, not, Option, none, some, List, [], ◌∷◌, ◌++◌,
  length, ltb, ◌==◌, if◌then◌else◌,
}
use silkjam.Prelude.Int.{ℤ, pos, negsuc, ◌+ℤ◌, ◌-ℤ◌, ltb_ℤ, eq_ℤ}
use silkjam.Protocol.Result.{
  Error, protocol, incomplete, struct_error, unicode_error, json_error, value_error, Result, ok,
  err, ◌>>=◌, ◌>>◌, raise_if, rewrap,
}
use silkjam.Protocol.Bytes.{Bytes, slice, slice_from, unpack, pack, unpack_q, pack_q}
use silkjam.Protocol.Text.{Text, encode_utf8, decode_utf8}
use silkjam.Protocol.Varint.{decode_varint, encode_varint}

-- The packet ids.
abbrev pub handshake_id : ℤ
handshake_id = pos 0

abbrev pub request_id : ℤ
request_id = pos 0

abbrev pub pingpong_id : ℤ
pingpong_id = pos 1

abbrev pub keepalive_id : ℤ
keepalive_id = pos 31

abbrev pub login_start_id : ℤ
login_start_id = pos 0

-- `(consumed, (packet_id, packet_data))`
pub record Packet : Type 0 where
  pub size : ℤ
  pub id : ℤ
  pub payload : Bytes

pub record HandshakeRequest : Type 0 where
  pub protocol_version : ℤ
  pub server_address : Text
  pub server_port : ℕ
  pub next_state : ℤ

-- A UUID is its 16 bytes.
pub record LoginStart : Type 0 where
  pub username : Text
  pub player_id : Option Bytes
  pub extra_data : Bytes

-- The `except` clauses.
abbrev protocol_errors : Error → Bool
protocol_errors protocol = true
protocol_errors _ = false

abbrev text_errors : Error → Bool
text_errors protocol = true
text_errors unicode_error = true
text_errors _ = false

abbrev struct_errors : Error → Bool
struct_errors protocol = true
struct_errors struct_error = true
struct_errors _ = false

abbrev json_errors : Error → Bool
json_errors protocol = true
json_errors incomplete = true
json_errors json_error = true
json_errors _ = false

unfoldable pub decode_string : Bytes → Result (ℤ × Text)
decode_string bytes = rewrap text_errors (do
  (varint_length, string_length) ← decode_varint bytes
  let end = pos varint_length +ℤ string_length
  raise_if (ltb_ℤ (pos (length bytes)) end) incomplete
  text ← decode_utf8 (slice bytes (pos varint_length) end)
  ok (end, text))

unfoldable pub decode_packet : Bytes → Result Packet
decode_packet bytes = rewrap protocol_errors (do
  (varint_length, total_packet_length) ← decode_varint bytes
  let end = pos varint_length +ℤ total_packet_length
  raise_if (ltb_ℤ (pos (length bytes)) end) incomplete
  (packet_id_length, packet_id) ← decode_varint (slice_from bytes (pos varint_length))
  ok (record {
    size = end;
    id = packet_id;
    payload = slice bytes (pos (varint_length + packet_id_length)) end;
  }))

unfoldable pub decode_handshake_packet : Packet → Result (ℤ × HandshakeRequest)
decode_handshake_packet packet = rewrap struct_errors (do
  raise_if (not (eq_ℤ packet.id handshake_id)) protocol
  (m, protocol_version) ← decode_varint packet.payload
  (n, server_address) ← decode_string (slice_from packet.payload (pos m))
  let i = pos m +ℤ n
  server_port ← unpack 2 (slice packet.payload i (i +ℤ pos 2))
  (k, next_state) ← decode_varint (slice_from packet.payload (i +ℤ pos 2))
  raise_if (not (eq_ℤ (i +ℤ pos 2 +ℤ pos k) (pos (length packet.payload)))) protocol
  ok (
    packet.size,
    record {
      protocol_version = protocol_version;
      server_address = server_address;
      server_port = server_port;
      next_state = next_state;
    },
  ))

unfoldable pub decode_request_packet : Packet → Result ℤ
decode_request_packet packet = rewrap protocol_errors (do
  raise_if (not (eq_ℤ packet.id request_id)) protocol
  raise_if (not (length packet.payload == 0)) protocol
  ok packet.size)

-- `decode_pingpong_packet` and `decode_keepalive_packet`, which differ in the id.
unfoldable pub decode_long_packet : ℤ → Packet → Result (ℤ × ℤ)
decode_long_packet id packet = rewrap struct_errors (do
  raise_if (not (eq_ℤ packet.id id)) protocol
  raise_if (not (length packet.payload == 8)) protocol
  value ← unpack_q packet.payload
  ok (packet.size, value))

unfoldable pub decode_pingpong_packet : Packet → Result (ℤ × ℤ)
unfolding decode_long_packet
decode_pingpong_packet = decode_long_packet pingpong_id

unfoldable pub decode_keepalive_packet : Packet → Result (ℤ × ℤ)
unfolding decode_long_packet
decode_keepalive_packet = decode_long_packet keepalive_id

-- `uuid.UUID(bytes=...)` wants 16 bytes.
unfoldable pub uuid : Bytes → Result Bytes
uuid bytes = if length bytes == 16 then ok bytes else err value_error

unfoldable pub decode_login_start_packet : Packet → ℤ → Result (ℤ × LoginStart)
unfolding uuid
decode_login_start_packet packet protocol_version = rewrap protocol_errors (do
  raise_if (not (eq_ℤ packet.id login_start_id)) protocol
  (i, username) ← decode_string packet.payload
  let size = pos (length packet.payload)
  if ltb_ℤ protocol_version (pos 759)
      then (do
        raise_if (not (eq_ℤ i size)) protocol
        ok (packet.size, record { username = username; player_id = none; extra_data = [] }))
      else if ltb_ℤ protocol_version (pos 764)
      then ok (
        packet.size,
        record { username = username; player_id = none; extra_data = slice_from packet.payload i },
      )
      else (do
        raise_if (ltb_ℤ (size -ℤ i) (pos 16)) protocol
        player_id ← uuid (slice packet.payload i (i +ℤ pos 16))
        ok (
          packet.size,
          record {
            username = username;
            player_id = some player_id;
            extra_data = slice_from packet.payload (i +ℤ pos 16);
          },
        )))

unfoldable pub encode_string : Text → Result Bytes
encode_string value = do
  str_data ← encode_utf8 value
  size ← encode_varint (pos (length str_data))
  ok (size ++ str_data)

unfoldable pub encode_packet : ℤ → Bytes → Result Bytes
encode_packet packet_id packet_data = do
  packet_id_data ← encode_varint packet_id
  size ← encode_varint (pos (length packet_id_data + length packet_data))
  ok (size ++ (packet_id_data ++ packet_data))

unfoldable pub encode_handshake_packet : ℤ → Text → ℕ → ℤ → Result Bytes
encode_handshake_packet protocol_version server_address server_port next_state = do
  version ← encode_varint protocol_version
  address ← encode_string server_address
  port ← pack 2 server_port
  state ← encode_varint next_state
  encode_packet (pos 0) (version ++ (address ++ (port ++ state)))

unfoldable pub encode_request_packet : Result Bytes
encode_request_packet = encode_packet request_id []

unfoldable pub encode_pingpong_packet : ℤ → Result Bytes
encode_pingpong_packet payload = do
  payload_data ← pack_q payload
  encode_packet (pos 1) payload_data

unfoldable pub encode_keepalive_packet : ℤ → Result Bytes
encode_keepalive_packet id = do payload_data ← pack_q id; encode_packet (pos 31) payload_data

abbrev pub or_empty : Option Bytes → Bytes
or_empty none = []
or_empty (some bytes) = bytes

unfoldable pub encode_login_start_packet : Text → Option Bytes → Bytes → Result Bytes
encode_login_start_packet username player_id extra_data = do
  name ← encode_string username
  encode_packet login_start_id (name ++ (or_empty player_id ++ extra_data))

-- `json.loads` and `json.dumps`, which stand for Python's own parser and printer.
pub record JsonCodec : Type 1 where
  pub Json : Type 0
  pub loads : Text → Result Json
  pub dumps : Json → Text

module _ (codec : JsonCodec) where
  open codec use {Json, loads, dumps}

  unfoldable pub decode_json_packet : Packet → Result (ℤ × (ℤ × Json))
  decode_json_packet packet = rewrap json_errors (do
    (json_length, json_string) ← decode_string packet.payload
    raise_if (not (eq_ℤ json_length (pos (length packet.payload)))) protocol
    value ← loads json_string
    ok (packet.size, (packet.id, value)))

  unfoldable pub encode_json_packet : ℤ → Json → Result Bytes
  encode_json_packet packet_id payload = do
    text ← encode_string (dumps payload)
    encode_packet packet_id text

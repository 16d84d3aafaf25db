-- ===== src/Client/Examples.antt =====
-- A status dialog at concrete bytes.
use silkjam.Prelude.{ℕ, ◌≡◌, refl, sym, Option, none, some, List, [], ◌∷◌, concat, arith}
use silkjam.Prelude.Int.{pos, ◌+ℤ◌, ◌-ℤ◌}
use silkjam.Protocol.Result.{Result, ok}
use silkjam.Protocol.Bytes.{
  Bytes, slice, slice_from, bytes_eq, unpack, pack, unpack_q, pack_q, to_big_endian, big_endian,
}
use silkjam.Protocol.Text.{Text, decode_text, encode_text, utf8_bytes, utf8_next}
use silkjam.Protocol.Varint.RoundTrip.{varint}
use silkjam.Protocol.Legacy.{decode_legacy_ping}
use silkjam.Protocol.Varint.{decode_varint, decode_varint_loop, encode_varint}
use silkjam.Protocol.Packet.{
  decode_packet, decode_handshake_packet, decode_string, decode_pingpong_packet, decode_long_packet,
  encode_json_packet, encode_handshake_packet, encode_request_packet, encode_pingpong_packet,
  encode_string, encode_packet,
}
use silkjam.Protocol.Json.{Json, codec_of}
use silkjam.Protocol.Packet.RoundTrip.{IsHandshake}
use silkjam.Proxy.Status.{Shown, status_payload}
use silkjam.Proxy.Identify.{Routes, identify_backend, find_backend, server_of}
use silkjam.Proxy.Answers.{answer_client, handle_handshake}
use silkjam.Prelude.Sets.{mem}
use silkjam.Protocol.Buffer.{allocate_buffer, assign, new_size}
use silkjam.Protocol.Reader.{
  open_reader, read_legacy_ping, read_legacy_ping_loop, receive, read_packet, read_packet_loop,
}
use silkjam.Protocol.Reader.Calls.{read_handshake_packet, read_pingpong_packet}
use silkjam.Client.{McClient, send_requests, request_status}
use silkjam.Client.Dialog.{handshake_of, status_dialog}

-- "a.b" and the default port.
abbrev a_client : McClient
a_client = record { hostname = 97 ∷ 46 ∷ 98 ∷ []; port = 25565; protocol_version = pos 127 }

abbrev sleeping : ℕ → Shown
sleeping name = record {
  version_name = b'x' ∷ [];
  version_protocol = 767;
  motd = b'z' ∷ [];
  max_players = 20;
  online_players = pos 0;
  icon = none;
  waking_kick_msg = [];
}

abbrev print_empty : Json → Text
print_empty value = b'{' ∷ b'}' ∷ []

abbrev read_sleeping : Text → Result Json
read_sleeping text = ok (status_payload (sleeping 3))

abbrev one_server : Routes
one_server = record { subdomains = ([], 3) ∷ []; backends = 3 ∷ [] }

abbrev no_subdomain : Text → Option Text
no_subdomain address = some []

abbrev digits_of : ℕ → Text
digits_of n = []

abbrev cut_requests : List Bytes
cut_requests =
    (9 ∷ [])
    ∷ (0 ∷ 127 ∷ 3 ∷ 97 ∷ 46 ∷ 98 ∷ 99 ∷ 221 ∷ 1 ∷ 1 ∷ [])
    ∷ (0 ∷ 9 ∷ 1 ∷ 0 ∷ 0 ∷ 0 ∷ 0 ∷ 0 ∷ 0 ∷ 0 ∷ 5 ∷ [])
    ∷ []

abbrev cut_answers : List Bytes
cut_answers = (4 ∷ 0 ∷ 2 ∷ []) ∷ (b'{' ∷ b'}' ∷ 9 ∷ 1 ∷ 0 ∷ 0 ∷ 0 ∷ 0 ∷ 0 ∷ 0 ∷ 0 ∷ 5 ∷ []) ∷ []

requests_sent :
    (request_status (codec_of read_sleeping print_empty) a_client (pos 5) cut_answers).0
    ≡ concat cut_requests
unfolding request_status send_requests encode_handshake_packet encode_request_packet
    encode_pingpong_packet encode_string encode_packet encode_varint encode_text pack pack_q
    utf8_bytes to_big_endian
requests_sent = refl

answers_sent :
    answer_client digits_of read_sleeping print_empty no_subdomain no_subdomain one_server sleeping
      cut_requests
    ≡ concat cut_answers
unfolding answer_client open_reader allocate_buffer assign new_size slice slice_from ◌+ℤ◌ ◌-ℤ◌
    identify_backend find_backend server_of mem read_legacy_ping read_legacy_ping_loop receive
    decode_legacy_ping read_handshake_packet read_packet read_packet_loop decode_varint
    decode_varint_loop decode_packet decode_handshake_packet decode_string decode_text utf8_next
    unpack bytes_eq handle_handshake status_payload read_pingpong_packet decode_pingpong_packet
    decode_long_packet unpack_q encode_json_packet encode_pingpong_packet encode_string
    encode_packet encode_varint encode_text pack pack_q utf8_bytes to_big_endian big_endian
answers_sent = refl

a_client-IsHandshake : IsHandshake (handshake_of a_client)
unfolding varint utf8_bytes
a_client-IsHandshake = record {
  version = omega arith;
  address = omega arith;
  fits = omega arith;
  port = omega arith;
  state = omega arith;
}

status_dialog_example :
    (request_status (codec_of read_sleeping print_empty) a_client (pos 5) cut_answers).1
    ≡ some (status_payload (sleeping 3))
unfolding find_backend server_of mem bytes_eq varint utf8_bytes
status_dialog_example =
    status_dialog digits_of read_sleeping print_empty no_subdomain no_subdomain one_server sleeping
      3 a_client (pos 5) cut_requests cut_answers a_client-IsHandshake (omega arith)
      (omega arith, omega arith) refl refl (omega arith) (omega arith)
      (omega arith, (omega arith, (omega arith, tt))) (sym requests_sent)
      (omega arith, (omega arith, tt)) (sym answers_sent)

-- ===== src/Client/Dialog.antt =====
-- A status client and the proxy of a server that sleeps, over streams in any pieces.
use silkjam.Prelude.{
  ℕ, ◌≤◌, ◌≡◌, refl, ap, ◌∙◌, Option, some, List, [], ◌++◌, length, length-append, All, concat,
  arith,
}
use silkjam.Prelude.Int.{ℤ, pos}
use silkjam.Protocol.Result.{Result, ok}
use silkjam.Protocol.Bytes.{Bytes, pack_q, to_big_endian}
use silkjam.Protocol.Bytes.Laws.{length-to_big_endian}
use silkjam.Protocol.Text.{Text}
use silkjam.Protocol.Varint.RoundTrip.{varint, length-varint}
use silkjam.Protocol.Packet.{HandshakeRequest, JsonCodec, decode_json_packet, encode_request_packet}
use silkjam.Protocol.Packet.Frames.{
  IsSendable, string_bytes, packet_bytes, length-packet_bytes, encode_packet-bytes,
}
use silkjam.Protocol.Packet.RoundTrip.{IsHandshake, handshake_payload, encode_handshake-bytes}
use silkjam.Protocol.Packet.Fixed.{
  IsInt64, pack_q_total, encode_pingpong-bytes, encode_json-bytes, decode_json-bytes,
}
use silkjam.Protocol.Json.{Json, codec_of}
use silkjam.Protocol.Reader.Receive.{Nonempty}
use silkjam.Protocol.Reader.Calls.{decoded_by, second, read_json_packet}
use silkjam.Protocol.Reader.Packets.{read_packet-Reads}
use silkjam.Protocol.Reader.Stream.{open_reader-IsAt}
use silkjam.Proxy.Status.{Shown, status_payload}
use silkjam.Proxy.Identify.{Routes, find_backend}
use silkjam.Proxy.Answers.{answer_client}
use silkjam.Proxy.Answers.Laws.{answer_client-status}
use silkjam.Protocol.Reader.{open_reader}
use silkjam.Client.{McClient, send_requests, read_status, status_in, after_requests, request_status}

-- The handshake of a client.
abbrev pub handshake_of : McClient → HandshakeRequest
handshake_of client = record {
  protocol_version = client.protocol_version;
  server_address = client.hostname;
  server_port = client.port;
  next_state = pos 1;
}

-- A handshake adds at most 24 bytes to the host name.
handshake_fits :
    (h : HandshakeRequest)
    → IsHandshake h
    → length (string_bytes h.server_address) ≤ 4000
    → length (packet_bytes (pos 0) (handshake_payload h)) ≤ 4096
handshake_fits h ok_h short =
    let address = string_bytes h.server_address in
    let port = to_big_endian 2 h.server_port in
    let state = varint h.next_state in
    let size : length (handshake_payload h) ≤ 4020 = omega (
      arith,
      short,
      length-append (varint h.protocol_version) (address ++ (port ++ state)),
      length-append address (port ++ state),
      length-append port state,
      length-varint h.protocol_version ok_h.version,
      length-varint h.next_state ok_h.state,
      length-to_big_endian 2 h.server_port,
    ) in
    omega (arith, size, length-packet_bytes (pos 0) (handshake_payload h))

-- The three packets that a client sends.
send_requests-bytes :
    (client : McClient) (ping : ℤ) (number : Bytes)
    → IsHandshake (handshake_of client)
    → pack_q ping ≡ ok number
    → send_requests client ping ≡ (
      packet_bytes (pos 0) (handshake_payload (handshake_of client))
          ++ (packet_bytes (pos 0) [] ++ (packet_bytes (pos 1) number ++ [])),
      ok tt,
    )
unfolding send_requests encode_request_packet
send_requests-bytes client ping number ok_h packed =
    rw
      (
        encode_handshake-bytes (handshake_of client) ok_h,
        encode_packet-bytes (pos 0) [] (omega arith) (omega (arith, length-varint (pos 0))),
        encode_pingpong-bytes ping number packed,
      )
      refl

-- The client returns the value of the first packet of the answer.
read_status-json :
    (codec : JsonCodec) (value : codec.Json) (rest : Bytes) (pieces : List Bytes)
    → codec.loads (codec.dumps value) ≡ ok value
    → IsSendable (codec.dumps value)
    → length (string_bytes (codec.dumps value)) ≤ 4000
    → All Nonempty pieces
    → concat pieces ≡ packet_bytes (pos 0) (string_bytes (codec.dumps value)) ++ rest
    → read_status codec (open_reader [] pieces) ≡ some value
unfolding read_json_packet
read_status-json codec value rest pieces reads sendable short nonempty e =
    let text = string_bytes (codec.dumps value) in
    let (reader, opened, at) = open_reader-IsAt [] pieces (omega arith) nonempty in
    let r =
      read_packet-Reads (pos 0) text rest (omega arith)
        (omega (arith, short, length-packet_bytes (pos 0) text)) reader at.held at.ready at.fresh
        (at.arrives ∙ e) in
    ap (read_status codec) opened
    ∙ ap (λ o. status_in codec (decoded_by (λ p. second (decode_json_packet codec p)) o)) r.returns
    ∙ ap (λ d. status_in codec (second d, r.after))
        (decode_json-bytes codec (pos 0) value (omega arith) sendable
          (pos (length (packet_bytes (pos 0) text))) reads)

-- A status client with a valid address and port asks the proxy for the status of a server that
-- does not run. However its bytes are cut on their way to the proxy, and the answer on its way
-- back, the client returns just the status of the server that the routes have for its address, if
-- the address and the printed status have at most 4000 bytes and the JSON library reads back what
-- it prints.
pub status_dialog :
    (decimal : ℕ → Text) (loads : Text → Result Json) (dumps : Json → Text)
    (fullmatch match : Text → Option Text) (routes : Routes) (shown : ℕ → Shown) (name : ℕ)
    (client : McClient) (ping : ℤ) (requests answers : List Bytes)
    → IsHandshake (handshake_of client)
    → length (string_bytes client.hostname) ≤ 4000
    → IsInt64 ping
    → find_backend routes (match client.hostname) ≡ some name
    → loads (dumps (status_payload (shown name))) ≡ ok (status_payload (shown name))
    → IsSendable (dumps (status_payload (shown name)))
    → length (string_bytes (dumps (status_payload (shown name)))) ≤ 4000
    → All Nonempty requests
    → concat requests ≡ (request_status (codec_of loads dumps) client ping answers).0
    → All Nonempty answers
    → concat answers ≡ answer_client decimal loads dumps fullmatch match routes shown requests
    → (request_status (codec_of loads dumps) client ping answers).1
      ≡ some (status_payload (shown name))
unfolding request_status
status_dialog decimal loads dumps fullmatch match routes shown name client ping requests answers
      ok_h short ok_ping found reads sendable fits cut sent cut' answered =
    let h = handshake_of client in
    let codec : JsonCodec = codec_of loads dumps in
    let value = status_payload (shown name) in
    let (number, packed) = pack_q_total ping ok_ping in
    let sends = send_requests-bytes client ping number ok_h packed in
    let encoded =
      encode_json-bytes codec (pos 0) value (omega arith) sendable (omega (arith, fits)) in
    let answer =
      answer_client-status decimal loads dumps fullmatch match routes shown name h ping number
        (packet_bytes (pos 0) (string_bytes (dumps value))) [] requests ok_h
        (handshake_fits h ok_h short) refl packed found encoded cut (sent ∙ ap (λ o. o.0) sends) in
    ap (λ o. after_requests codec o.1 answers) sends
    ∙ read_status-json codec value (packet_bytes (pos 1) number) answers reads sendable fits cut'
        (answered ∙ answer)

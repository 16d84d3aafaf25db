-- ===== src/Proxy/Answers/Laws.antt =====
-- A status request of a modern client, from its handshake to the pong.
use silkjam.Prelude.{
  ℕ, ◌≤◌, ◌≡◌, refl, subst, ap, ◌∙◌, Option, some, List, [], ◌∷◌, ◌++◌, length, length-append,
  concat, All, arith,
}
use silkjam.Prelude.Int.{ℤ, pos}
use silkjam.Protocol.Result.{Result, ok}
use silkjam.Protocol.Bytes.{Bytes, pack_q}
use silkjam.Protocol.Text.{Text}
use silkjam.Protocol.Varint.RoundTrip.{varint, length-varint}
use silkjam.Protocol.Packet.{
  HandshakeRequest, encode_json_packet, decode_pingpong_packet, decode_handshake_packet,
}
use silkjam.Protocol.Packet.Frames.{packet_bytes, length-packet_bytes}
use silkjam.Protocol.Packet.RoundTrip.{IsHandshake, handshake_payload, decode_handshake-payload}
use silkjam.Protocol.Packet.Fixed.{long_payload, encode_pingpong-bytes}
use silkjam.Protocol.Bytes.Laws.{length-pack_q}
use silkjam.Protocol.Legacy.Discriminator.{NotHeader, packet_bytes-NotHeader}
use silkjam.Protocol.Json.{Json, codec_of}
use silkjam.Protocol.Reader.{PacketReader, read_packet}
use silkjam.Protocol.Reader.Calls.{decoded_by, second, read_handshake_packet, read_pingpong_packet}
use silkjam.Protocol.Reader.Packets.{packet_of, read_packet-Reads}
use silkjam.Protocol.Reader.Stream.{IsAt, open_reader-IsAt}
use silkjam.Protocol.Reader.Receive.{Nonempty}
use silkjam.Protocol.Reader.Legacy.{read_legacy_ping-Refuses}
use silkjam.Proxy.Forwarding.{modern}
use silkjam.Proxy.Status.{Shown, status_payload}
use silkjam.Proxy.Identify.{
  Routes, find_backend, identified, identify_from, identify_modern, identify_backend,
}
use silkjam.Proxy.Answers.{
  answer_packet, answer_request, answer_ping, handle_handshake, written, answer_from,
  answer_identified, answer_client,
}

payload_nonempty : (h : HandshakeRequest) → IsHandshake h → 1 ≤ length (handshake_payload h)
payload_nonempty h ok_h = omega (
  arith,
  length-varint h.protocol_version ok_h.version,
  length-append (varint h.protocol_version) _,
)

not_legacy : (xs rest : Bytes) → 1 ≤ length xs → NotHeader (packet_bytes (pos 0) xs ++ rest)
not_legacy [] rest some_bytes = absurd (omega (arith, some_bytes))
not_legacy (b ∷ xs) rest some_bytes = packet_bytes-NotHeader b xs rest

-- The handshake is read, and it names the backend.
pub identify_backend-modern :
    (fullmatch match : Text → Option Text) (routes : Routes) (h : HandshakeRequest) (rest : Bytes)
    (s : PacketReader)
    → IsHandshake h
    → length (packet_bytes (pos 0) (handshake_payload h)) ≤ 4096
    → IsAt s (packet_bytes (pos 0) (handshake_payload h) ++ rest)
    → (after : PacketReader) × (identify_backend fullmatch match routes s
        ≡ (identified (find_backend routes (match h.server_address)) (modern h), after))
      × IsAt after rest
unfolding identify_backend read_handshake_packet
identify_backend-modern fullmatch match routes h rest s ok_h fits at =
    let payload = handshake_payload h in
    let stream = packet_bytes (pos 0) payload ++ rest in
    let no_ping =
      read_legacy_ping-Refuses stream s at.held (not_legacy payload rest (payload_nonempty h ok_h))
        at.ready at.arrives in
    let r =
      read_packet-Reads (pos 0) payload rest (omega arith) fits no_ping.after no_ping.left
        no_ping.ready (no_ping.same_length ∙ at.fresh) no_ping.arrives in
    let decoded : decode_handshake_packet (packet_of (pos 0) payload)
        ≡ ok (pos (length (packet_bytes (pos 0) payload)), h) =
      decode_handshake-payload h ok_h (pos (length (packet_bytes (pos 0) payload))) in
    (
      r.after,
      ap (identify_from fullmatch match routes) no_ping.returns
          ∙ ap
              (λ o.
                identify_modern fullmatch match routes
                  (decoded_by (λ p. second (decode_handshake_packet p)) o))
              r.returns
          ∙ ap (λ d. identify_modern fullmatch match routes (second d, r.after)) decoded,
      record { held = r.left; ready = r.ready; fresh = r.no_length; arrives = r.arrives },
    )

-- The status, and the pong with the number of the ping.
pub handle_handshake-status :
    (decimal : ℕ → Text) (loads : Text → Result Json) (dumps : Json → Text) (shown : Shown)
    (h : HandshakeRequest) (v : ℤ) (number status rest : Bytes) (s : PacketReader)
    → h.next_state ≡ pos 1
    → pack_q v ≡ ok number
    → encode_json_packet (codec_of loads dumps) (pos 0) (status_payload shown) ≡ ok status
    → IsAt s (packet_bytes (pos 0) [] ++ (packet_bytes (pos 1) number ++ rest))
    → (handle_handshake decimal loads dumps shown (modern h) s).0
      ≡ status ++ packet_bytes (pos 1) number
unfolding handle_handshake read_pingpong_packet decode_pingpong_packet
handle_handshake-status decimal loads dumps shown h v number status rest s state packed encoded at =
    let width : length number ≡ 8 = length-pack_q v packed in
    let r =
      read_packet-Reads (pos 0) [] (packet_bytes (pos 1) number ++ rest) (omega arith)
        (omega (arith, length-packet_bytes (pos 0) [])) s at.held at.ready at.fresh at.arrives in
    let r' =
      read_packet-Reads (pos 1) number rest (omega arith)
        (omega (arith, width, length-packet_bytes (pos 1) number)) r.after r.left r.ready
        r.no_length r.arrives in
    let answer = answer_request decimal loads dumps in
    let pong : second (decode_pingpong_packet (packet_of (pos 1) number)) ≡ ok v =
      ap second
        (long_payload (pos (length (packet_bytes (pos 1) number))) (pos 1) v number packed) in
    let asked : handle_handshake decimal loads dumps shown (modern h) s
        ≡ answer_packet decimal loads dumps shown (read_packet s) =
      rw (state) refl in
    ap (λ o. o.0)
      (asked
        ∙ ap (answer_packet decimal loads dumps shown) r.returns
        ∙ ap (λ o. answer o r.after) encoded
        ∙ ap (λ o. answer_ping status (decoded_by (λ p. second (decode_pingpong_packet p)) o))
            r'.returns
        ∙ ap (λ o. answer_ping status (o, r'.after)) pong
        ∙ ap (λ p. (status ++ written p, r'.after)) (encode_pingpong-bytes v number packed))

-- The answer to a status client whose packets come in any pieces.
pub answer_client-status :
    (decimal : ℕ → Text) (loads : Text → Result Json) (dumps : Json → Text)
    (fullmatch match : Text → Option Text) (routes : Routes) (shown : ℕ → Shown) (name : ℕ)
    (h : HandshakeRequest) (v : ℤ) (number status rest : Bytes) (pieces : List Bytes)
    → IsHandshake h
    → length (packet_bytes (pos 0) (handshake_payload h)) ≤ 4096
    → h.next_state ≡ pos 1
    → pack_q v ≡ ok number
    → find_backend routes (match h.server_address) ≡ some name
    → encode_json_packet (codec_of loads dumps) (pos 0) (status_payload (shown name)) ≡ ok status
    → All Nonempty pieces
    → concat pieces
      ≡ packet_bytes (pos 0) (handshake_payload h)
        ++ (packet_bytes (pos 0) [] ++ (packet_bytes (pos 1) number ++ rest))
    → answer_client decimal loads dumps fullmatch match routes shown pieces
      ≡ status ++ packet_bytes (pos 1) number
unfolding answer_client
answer_client-status decimal loads dumps fullmatch match routes shown name h v number status rest
      pieces ok_h fits state packed found encoded nonempty e =
    let stream = packet_bytes (pos 0) [] ++ (packet_bytes (pos 1) number ++ rest) in
    let (reader, opened, at) = open_reader-IsAt [] pieces (omega arith) nonempty in
    let here = subst (λ x. IsAt reader x) e at in
    let (after, names, next) =
      identify_backend-modern fullmatch match routes h stream reader ok_h fits here in
    ap (answer_from decimal loads dumps fullmatch match routes shown) opened
    ∙ ap (answer_identified decimal loads dumps fullmatch match shown) names
    ∙ ap
        (λ b.
          answer_identified decimal loads dumps fullmatch match shown
            (identified b (modern h), after))
        found
    ∙ handle_handshake-status decimal loads dumps (shown name) h v number status rest after state
        packed encoded next

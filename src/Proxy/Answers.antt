-- ===== src/Proxy/Answers.antt =====
-- `_handle_handshake` of `MCProxy` in app/backend/core/proxy.py: what a client gets while the server
-- does not run. Whatever is raised ends the answer; timeouts are left out.
pub mod Laws
use silkjam.Prelude.{ℕ, Option, none, some, List, [], ◌++◌, if◌then◌else◌}
use silkjam.Prelude.Int.{ℤ, pos, eq_ℤ}
use silkjam.Protocol.Result.{Result, ok, err}
use silkjam.Protocol.Bytes.{Bytes}
use silkjam.Protocol.Text.{Text}
use silkjam.Protocol.Packet.{
  Packet, request_id, pingpong_id, decode_pingpong_packet, encode_pingpong_packet,
  encode_json_packet,
}
use silkjam.Protocol.Legacy.{encode_legacy_ping_response}
use silkjam.Protocol.Json.{Json, codec_of}
use silkjam.Protocol.Reader.{PacketReader, open_reader, read_packet}
use silkjam.Protocol.Reader.Calls.{second, read_pingpong_packet}
use silkjam.Proxy.Forwarding.{Handshake, legacy, modern}
use silkjam.Proxy.Status.{Shown, status_payload, kick_payload}
use silkjam.Proxy.Identify.{Routes, identify_backend}

-- What the writer got: nothing, where the encoder raises.
abbrev pub written : Result Bytes → Bytes
written (ok bytes) = bytes
written (err e) = []

-- The pong, behind what was written before.
abbrev pub answer_ping : Bytes → Result ℤ × PacketReader → Bytes × PacketReader
answer_ping before (ok payload, s) = (before ++ written (encode_pingpong_packet payload), s)
answer_ping before (err e, s) = (before, s)

-- `str(n)`, `json.loads` and `json.dumps`.
module _ (decimal : ℕ → Text) (loads : Text → Result Json) (dumps : Json → Text) where
  abbrev pub answer_request : Result Bytes → PacketReader → Bytes × PacketReader
  answer_request (ok status) s = answer_ping status (read_pingpong_packet s)
  answer_request (err e) s = ([], s)

  -- For a packet of any other kind the ping has no payload, which raises.
  abbrev pub answer_packet : Shown → Result Packet × PacketReader → Bytes × PacketReader
  answer_packet shown (err e, s) = ([], s)
  answer_packet shown (ok packet, s) =
      if eq_ℤ packet.id request_id
      then answer_request (encode_json_packet (codec_of loads dumps) (pos 0) (status_payload shown))
          s
      else if eq_ℤ packet.id pingpong_id
      then answer_ping [] (second (decode_pingpong_packet packet), s)
      else ([], s)

  unfoldable pub handle_handshake : Shown → Handshake → PacketReader → Bytes × PacketReader
  unfolding status_payload
  handle_handshake shown (legacy ping) s = (
    written (
        encode_legacy_ping_response decimal shown.version_protocol shown.version_name shown.motd
          shown.max_players),
    s,
  )
  handle_handshake shown (modern h) s =
      if eq_ℤ h.next_state (pos 1)
      then answer_packet shown (read_packet s)
      else if eq_ℤ h.next_state (pos 2)
      then (written (encode_json_packet (codec_of loads dumps) (pos 0) (kick_payload shown)), s)
      else ([], s)

  -- `_handle_client` for a server that does not run and is not started in time: the answer to a
  -- client whose bytes come in some pieces, where `shown` is what the proxy knows of each backend.
  module _ (fullmatch match : Text → Option Text) where
    abbrev answer_identified : (ℕ → Shown) → Option (ℕ × Handshake) × PacketReader → Bytes
    answer_identified shown (none, s) = []
    answer_identified shown (some (name, handshake), s) =
        (handle_handshake (shown name) handshake s).0

    abbrev answer_from : Routes → (ℕ → Shown) → Result PacketReader → Bytes
    answer_from routes shown (ok s) =
        answer_identified shown (identify_backend fullmatch match routes s)
    answer_from routes shown (err e) = []

    unfoldable pub answer_client : Routes → (ℕ → Shown) → List Bytes → Bytes
    unfolding identify_backend handle_handshake
    answer_client routes shown pieces = answer_from routes shown (open_reader [] pieces)

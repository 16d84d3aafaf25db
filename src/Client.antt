-- ===== src/Client.antt =====
-- The status client of app/backend/core/client.py, over the bytes that it sends and the pieces in
-- which the answer comes. Sockets and timeouts are left out.
pub mod Dialog
mod Examples
use silkjam.Prelude.{ℕ, Option, none, some, List, [], ◌∷◌, ◌++◌}
use silkjam.Prelude.Int.{ℤ, pos}
use silkjam.Protocol.Result.{Result, ok, err}
use silkjam.Protocol.Bytes.{Bytes}
use silkjam.Protocol.Text.{Text}
use silkjam.Protocol.Packet.{
  JsonCodec, encode_handshake_packet, encode_request_packet, encode_pingpong_packet,
}
use silkjam.Protocol.Reader.{PacketReader, open_reader}
use silkjam.Protocol.Reader.Calls.{read_json_packet}

-- The `hostname`, the `port` and the protocol of the `version` of an `MCClient`.
pub record McClient : Type 0 where
  pub hostname : Text
  pub port : ℕ
  pub protocol_version : ℤ

-- `version or Version(name="0.0.0", protocol=127)`
abbrev pub new_client : Text → ℕ → Option ℤ → McClient
new_client hostname port none = record {
  hostname = hostname;
  port = port;
  protocol_version = pos 127;
}
new_client hostname port (some version) = record {
  hostname = hostname;
  port = port;
  protocol_version = version;
}

-- What is sent by writes one after the other, up to the first whose encoder raises.
abbrev pub write_all : List (Result Bytes) → Bytes × Result (Unit {0})
write_all [] = ([], ok tt)
write_all (err e ∷ others) = ([], err e)
write_all (ok bytes ∷ others) = let (sent, end) = write_all others in (bytes ++ sent, end)

-- `ping` is the random number.
unfoldable pub send_requests : McClient → ℤ → Bytes × Result (Unit {0})
send_requests client ping = write_all (
    encode_handshake_packet client.protocol_version client.hostname client.port (pos 1)
    ∷ encode_request_packet
    ∷ encode_pingpong_packet ping
    ∷ [])

module _ (codec : JsonCodec) where
  open codec use {Json}

  abbrev pub status_in : Result (ℤ × Json) × PacketReader → Option Json
  status_in (ok (id, status), s) = some status
  status_in (err e, s) = none

  abbrev pub read_status : Result PacketReader → Option Json
  read_status (ok s) = status_in (read_json_packet codec s)
  read_status (err e) = none

  abbrev after_requests : Result (Unit {0}) → List Bytes → Option Json
  after_requests (ok done) pieces = read_status (open_reader [] pieces)
  after_requests (err e) pieces = none

  -- What is sent, and what is returned when the answer comes in `pieces`. Every exception is
  -- caught, and then nothing is returned.
  unfoldable pub request_status : McClient → ℤ → List Bytes → Bytes × Option Json
  unfolding send_requests read_json_packet open_reader
  request_status client ping pieces =
      let (sent, end) = send_requests client ping in (sent, after_requests end pieces)

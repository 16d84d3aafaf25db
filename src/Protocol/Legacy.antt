-- ===== src/Protocol/Legacy.antt =====
-- The legacy ping of app/backend/core/protocol.py: `decode_legacy_ping`, `encode_legacy_ping` and
-- `encode_legacy_ping_response`.
pub mod RoundTrip
pub mod Discriminator
use silkjam.Prelude.{
  ℕ, ◌+◌, ◌*◌, Bool, true, false, not, List, [], ◌∷◌, ◌++◌, length, min, ltb, ◌==◌, if◌then◌else◌,
}
use silkjam.Prelude.Int.{pos}
use silkjam.Protocol.Result.{
  Error, protocol, incomplete, struct_error, unicode_error, Result, ok, err, ◌>>=◌, ◌>>◌, raise_if,
  rewrap,
}
use silkjam.Protocol.Bytes.{Bytes, slice, slice_from, bytes_eq, unpack, pack}
use silkjam.Protocol.Text.{Text, encode_utf16, decode_utf16}

pub record LegacyPingRequest : Type 0 where
  pub protocol_version : ℕ
  pub hostname : Text
  pub port : ℕ

abbrev pub header : Bytes
header = 0xfe ∷ 0x01 ∷ 0xfa ∷ []

-- "MC|PingHost"
abbrev pub channel : Text
channel = b'M' ∷ b'C' ∷ b'|' ∷ b'P' ∷ b'i' ∷ b'n' ∷ b'g' ∷ b'H' ∷ b'o' ∷ b's' ∷ b't' ∷ []

abbrev legacy_errors : Error → Bool
legacy_errors protocol = true
legacy_errors struct_error = true
legacy_errors unicode_error = true
legacy_errors _ = false

-- `data[0]`, read after the check that there is a byte.
abbrev first : Bytes → ℕ
first [] = 0
first (b ∷ bytes) = b

-- From the length of the channel name on.
unfoldable pub decode_legacy_fields : Bytes → Result (ℕ × LegacyPingRequest)
decode_legacy_fields bytes = do
  string_length ← unpack 2 (slice bytes (pos 3) (pos 5))
  let i = 5 + string_length * 2
  string ← decode_utf16 (slice bytes (pos 5) (pos i))
  raise_if (not (bytes_eq string channel)) protocol
  remaining_length ← unpack 2 (slice bytes (pos i) (pos (i + 2)))
  raise_if (ltb (length (slice_from bytes (pos (i + 2)))) remaining_length) incomplete
  protocol_version ← unpack 1 (slice bytes (pos (i + 2)) (pos (i + 3)))
  hostname_length ← unpack 2 (slice bytes (pos (i + 3)) (pos (i + 5)))
  let j = i + 5 + hostname_length * 2
  hostname ← decode_utf16 (slice bytes (pos (i + 5)) (pos j))
  port ← unpack 4 (slice bytes (pos j) (pos (j + 4)))
  ok (j + 4, record { protocol_version = protocol_version; hostname = hostname; port = port })

unfoldable pub decode_legacy_ping : Bytes → Result (ℕ × LegacyPingRequest)
decode_legacy_ping bytes = rewrap legacy_errors (do
  raise_if (ltb (length bytes) 1) incomplete
  raise_if (not (first bytes == 0xfe)) protocol
  raise_if (ltb (length bytes) 3) incomplete
  raise_if (not (bytes_eq (slice bytes (pos 0) (pos 3)) header)) protocol
  raise_if (ltb (length bytes) (3 + 2 + 22 + 2)) incomplete
  decode_legacy_fields bytes)

unfoldable pub encode_legacy_ping : ℕ → Text → ℕ → Result Bytes
encode_legacy_ping protocol_version hostname port = do
  string_length ← pack 2 (length channel)
  channel_data ← encode_utf16 channel
  protocol_version_data ← pack 1 protocol_version
  hostname_length ← pack 2 (length hostname)
  hostname_data ← encode_utf16 hostname
  port_data ← pack 4 port
  let fields = protocol_version_data ++ (hostname_length ++ (hostname_data ++ port_data))
  remaining_length ← pack 2 (length fields)
  ok (header ++ (string_length ++ (channel_data ++ (remaining_length ++ fields))))

-- `str(n)`, the decimal digits that an f-string writes, is a parameter.
module _ (decimal : ℕ → Text) where
  -- "§1\x00{protocol_version}\x00{mc_version}\x00{motd}\x000\x00{max_players}"
  unfoldable pub legacy_response_text : ℕ → Text → Text → ℕ → Text
  legacy_response_text protocol_version mc_version motd max_players =
      0xa7
      ∷ b'1'
      ∷ 0
      ∷ (decimal protocol_version
          ++ (0 ∷ (mc_version ++ (0 ∷ (motd ++ (0 ∷ (decimal 0 ++ (0 ∷ decimal max_players))))))))

  unfoldable pub encode_legacy_ping_response : ℕ → Text → Text → ℕ → Result Bytes
  unfolding legacy_response_text
  encode_legacy_ping_response protocol_version mc_version motd max_players = do
    let string = legacy_response_text protocol_version mc_version motd max_players
    string_length ← pack 2 (min (length string) 65535)
    string_data ← encode_utf16 string
    ok ((0xff ∷ []) ++ (string_length ++ string_data))

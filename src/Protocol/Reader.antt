-- ===== src/Protocol/Reader.antt =====
-- The read loops of `PacketReader` in app/backend/core/protocol.py, over the chunks that a stream
-- delivers. Locks and timeouts are left out.
pub mod Prefix
pub mod Contents
pub mod Receive
pub mod Packets
pub mod Stream
pub mod Legacy
pub mod Termination
pub mod Calls
pub mod Examples
use silkjam.Prelude.{
  ℕ, zero, suc, ◌-◌, Bool, true, false, Option, none, some, List, [], ◌∷◌, ◌++◌, length, take, drop,
  leb, concat, if◌then◌else◌,
}
use silkjam.Prelude.Int.{ℤ, pos, pos_part, ◌+ℤ◌, ◌-ℤ◌, ltb_ℤ, min_ℤ, eq_ℤ}
use silkjam.Protocol.Result.{
  Error, protocol, incomplete, connection_reset, endless, Result, ok, err, ◌>>=◌,
}
use silkjam.Protocol.Bytes.{Bytes}
use silkjam.Protocol.Varint.{decode_varint}
use silkjam.Protocol.Packet.{Packet, decode_packet}
use silkjam.Protocol.Legacy.{LegacyPingRequest, decode_legacy_ping}
use silkjam.Protocol.Buffer.{
  Buffer, unparsed, assign, allocate_buffer, min_read_size, default_buffer_size,
}

-- `_save` is `saving`, and `incoming` has the chunks that the peer is going to send.
pub record PacketReader : Type 0 where
  pub buffer : Buffer
  pub packet_length : Option ℤ
  pub saving : Bool
  pub incoming : List Bytes

-- `PacketReader(reader, initial_data)`
unfoldable pub open_reader : Bytes → List Bytes → Result PacketReader
unfolding allocate_buffer
open_reader initial chunks = do
  buffer ←
      allocate_buffer
        (record {
          bytes = initial;
          i = pos 0;
          j = pos (length initial);
          k = pos 0;
          n = default_buffer_size;
        })
        false
  ok (record { buffer = buffer; packet_length = none; saving = false; incoming = chunks })

-- `StreamReader.read(n)`: what has come, at most `n` bytes of it, and nothing at the end.
abbrev pub read_some : ℕ → List Bytes → Bytes × List Bytes
read_some n [] = ([], [])
read_some n (chunk ∷ chunks) =
    if leb (length chunk) n then (chunk, chunks) else (take n chunk, drop n chunk ∷ chunks)

-- `data[j : j + len(new_data)] = new_data` and `j += len(new_data)`, unless nothing was read.
abbrev pub store_read : Bytes → PacketReader → Result (Unit {0}) × PacketReader
store_read [] s = (err connection_reset, s)
store_read (b ∷ new) s =
    let size = pos (length (b ∷ new)) in
    elim (assign s.buffer.bytes s.buffer.j (s.buffer.j +ℤ size) (b ∷ new)) [
      | err e ↦ (err e, s)
      | ok bytes ↦
          (ok tt, record s { buffer = record s.buffer { bytes = bytes; j = s.buffer.j +ℤ size } })
    ]

-- Up to `read`, with the buffer that has room.
abbrev pub read_into : Buffer → PacketReader → Result (Unit {0}) × PacketReader
read_into b s =
    let (new, rest) = read_some (pos_part (pos b.n -ℤ b.j)) s.incoming in
    if eq_ℤ b.j (pos b.n)
    then (err protocol, record s { buffer = b })
    else store_read new (record s { buffer = b; incoming = rest })

-- What the loops do about incomplete data, where a new buffer is made for less than `limit` free
-- bytes.
unfoldable pub receive : ℤ → PacketReader → Result (Unit {0}) × PacketReader
unfolding assign allocate_buffer
receive limit s =
    elim (if ltb_ℤ (pos s.buffer.n -ℤ s.buffer.j) limit
      then allocate_buffer s.buffer s.saving
      else ok s.buffer) [ err e ↦ (err e, s) | ok b ↦ read_into b s ]

abbrev pub advance : ℤ → PacketReader → PacketReader
advance size s = record s { buffer = record s.buffer { i = s.buffer.i +ℤ size } }

-- The loop goes on with what was received, or raises.
abbrev pub go_on {ℓ} :
    {A : Type ℓ}
    → (PacketReader → Result A × PacketReader)
    → Result (Unit {0}) × PacketReader
    → Result A × PacketReader
go_on loop (ok done, s) = loop s
go_on loop (err e, s) = (err e, s)

-- One round of the loop of `_read_packet` behind the length of the packet.
abbrev pub parse_packet :
    (PacketReader → Result Packet × PacketReader) → ℤ → PacketReader → Result Packet × PacketReader
parse_packet loop size s = elim (decode_packet (unparsed s.buffer)) [
  | ok p ↦ (ok p, record (advance p.size s) { packet_length = none })
  | err e ↦ elim e [
    | incomplete ↦ go_on loop (receive (min_ℤ (pos min_read_size) size) s)
    | other ↦ (err other, s)
  ]
]

unfoldable pub read_packet_loop : ℕ → PacketReader → Result Packet × PacketReader
unfolding receive
read_packet_loop zero s = (err endless, s)
read_packet_loop (suc fuel) s = elim s.packet_length [
  | some size ↦ parse_packet (read_packet_loop fuel) size s
  | none ↦ elim (decode_varint (unparsed s.buffer)) [
    | ok (n, size) ↦
        parse_packet (read_packet_loop fuel) size (record s { packet_length = some size })
    | err e ↦ elim e [
      | incomplete ↦ go_on (read_packet_loop fuel) (receive (pos min_read_size) s)
      | other ↦ (err other, s)
    ]
  ]
]

-- Each round but the last receives at least a byte.
abbrev pub rounds : PacketReader → ℕ
rounds s = suc (length (concat s.incoming))

unfoldable pub read_packet : PacketReader → Result Packet × PacketReader
unfolding read_packet_loop
read_packet s = read_packet_loop (rounds s) s

unfoldable pub read_legacy_ping_loop : ℕ → PacketReader → Result LegacyPingRequest × PacketReader
unfolding receive
read_legacy_ping_loop zero s = (err endless, s)
read_legacy_ping_loop (suc fuel) s = elim (decode_legacy_ping (unparsed s.buffer)) [
  | ok (size, ping) ↦ (ok ping, advance (pos size) s)
  | err e ↦ elim e [
    | incomplete ↦ go_on (read_legacy_ping_loop fuel) (receive (pos min_read_size) s)
    | other ↦ (err other, s)
  ]
]

unfoldable pub read_legacy_ping : PacketReader → Result LegacyPingRequest × PacketReader
unfolding read_legacy_ping_loop
read_legacy_ping s = read_legacy_ping_loop (rounds s) s

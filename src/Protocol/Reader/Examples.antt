-- ===== src/Protocol/Reader/Examples.antt =====
-- Runs of the reader, and its theorems at concrete inputs.
use silkjam.Prelude.{◌≡◌, ◌≢◌, refl, false, none, List, [], ◌∷◌, ◌++◌, concat, arith}
use silkjam.Prelude.Int.{ℤ, pos, ◌+ℤ◌, ◌-ℤ◌}
use silkjam.Protocol.Result.{Result, ok, err, connection_reset, endless}
use silkjam.Protocol.Bytes.{Bytes, slice, slice_from, clip}
use silkjam.Protocol.Varint.RoundTrip.{varint}
use silkjam.Protocol.Buffer.{unparsed, assign}
use silkjam.Protocol.Packet.{Packet, decode_packet}
use silkjam.Protocol.Varint.{decode_varint, decode_varint_loop}
use silkjam.Protocol.Reader.{PacketReader, open_reader, read_packet, read_packet_loop, receive}
use silkjam.Protocol.Reader.Stream.{stream_of, packets_of, read_packets, read_packets-stream}
use silkjam.Protocol.Reader.Termination.{read_packet_terminates}

abbrev two_packets : List (ℤ × Bytes)
two_packets = (pos 0, []) ∷ (pos 1, 3 ∷ []) ∷ []

abbrev pieces : List Bytes
pieces = (0 ∷ 2 ∷ []) ∷ (1 ∷ []) ∷ (3 ∷ 9 ∷ []) ∷ []

two_packets_sent : stream_of two_packets ≡ 1 ∷ 0 ∷ 2 ∷ 1 ∷ 3 ∷ []
unfolding varint
two_packets_sent = refl

-- A reader with a small buffer that has the end of a packet before it.
abbrev small_reader : List Bytes → PacketReader
small_reader chunks = record {
  buffer = record { bytes = 2 ∷ 1 ∷ 0 ∷ 0 ∷ []; i = pos 0; j = pos 2; k = pos 0; n = 4 };
  packet_length = none;
  saving = false;
  incoming = chunks;
}

read_packets-stream_example :
    (reader after : PacketReader) × (open_reader (1 ∷ []) pieces ≡ ok reader)
    × (read_packets 2 reader ≡ (ok (packets_of two_packets), after))
    × (unparsed after.buffer ++ concat after.incoming ≡ 9 ∷ [])
unfolding varint
read_packets-stream_example =
    read_packets-stream two_packets (9 ∷ []) (1 ∷ []) pieces
      ((omega arith, omega arith), ((omega arith, omega arith), tt)) (omega arith)
      (omega arith, (omega arith, (omega arith, tt))) refl

read_packet_terminates_example : (read_packet (small_reader ((3 ∷ []) ∷ []))).0 ≢ err endless
read_packet_terminates_example =
    read_packet_terminates (small_reader ((3 ∷ []) ∷ [])) (omega arith, tt)

abbrev answer_of_small : List Bytes → Result Packet
answer_of_small chunks = (read_packet (small_reader chunks)).0

packet_complete :
    answer_of_small ((3 ∷ []) ∷ []) ≡ ok (record { size = pos 3; id = pos 1; payload = 3 ∷ [] })
unfolding read_packet read_packet_loop receive decode_packet decode_varint decode_varint_loop assign
    slice slice_from clip ◌+ℤ◌ ◌-ℤ◌
packet_complete = refl

closed_early : answer_of_small [] ≡ err connection_reset
unfolding read_packet read_packet_loop receive decode_packet decode_varint decode_varint_loop assign
    slice slice_from clip ◌+ℤ◌ ◌-ℤ◌
closed_early = refl

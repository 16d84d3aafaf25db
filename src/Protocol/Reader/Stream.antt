-- ===== src/Protocol/Reader/Stream.antt =====
-- A stream of packets, read one after the other.
use silkjam.Prelude.{
  ℕ, zero, suc, ◌≤◌, ◌<◌, ◌≡◌, refl, ap, ◌∙◌, none, false, List, [], ◌∷◌, ◌++◌, length,
  append_assoc, All, concat,
}
use silkjam.Prelude.Int.{ℤ}
use silkjam.Protocol.Result.{Result, ok, err}
use silkjam.Protocol.Bytes.{Bytes}
use silkjam.Protocol.Varint.{IsInt32}
use silkjam.Protocol.Packet.{Packet}
use silkjam.Protocol.Packet.Frames.{packet_bytes}
use silkjam.Protocol.Buffer.{unparsed}
use silkjam.Protocol.Reader.{PacketReader, open_reader, read_packet}
use silkjam.Protocol.Reader.Contents.{unparsed-Holds, first-Holds}
use silkjam.Protocol.Reader.Receive.{Nonempty}
use silkjam.Protocol.Reader.Packets.{IsReady, packet_of, read_packet-Reads}

-- A reader at the start of a packet, with `stream` before it.
pub record IsAt (s : PacketReader) (stream : Bytes) : Type 0 where
  pub held : Bytes
  pub ready : IsReady s held
  pub fresh : s.packet_length ≡ none
  pub arrives : held ++ concat s.incoming ≡ stream

-- A new reader.
pub open_reader-IsAt :
    (initial : Bytes) (chunks : List Bytes)
    → length initial < 4096
    → All Nonempty chunks
    → (reader : PacketReader) × (open_reader initial chunks ≡ ok reader)
      × IsAt reader (initial ++ concat chunks)
unfolding open_reader
open_reader-IsAt initial chunks small nonempty =
    let (b, allocated, holds) = first-Holds initial small in
    (
      record { buffer = b; packet_length = none; saving = false; incoming = chunks },
      rw (allocated) refl,
      record {
        held = initial;
        ready = record { holds = holds; unsaved = refl; nonempty = nonempty };
        fresh = refl;
        arrives = refl;
      },
    )

-- The packets that may be sent to a reader with the smallest buffer.
abbrev pub FitsBuffer : ℤ × Bytes → Type 0
FitsBuffer packet = IsInt32 packet.0 × (length (packet_bytes packet.0 packet.1) ≤ 4096)

-- Their bytes, one after the other.
abbrev pub stream_of : List (ℤ × Bytes) → Bytes
stream_of [] = []
stream_of ((id, payload) ∷ packets) = packet_bytes id payload ++ stream_of packets

abbrev pub packets_of : List (ℤ × Bytes) → List Packet
packets_of [] = []
packets_of ((id, payload) ∷ packets) = packet_of id payload ∷ packets_of packets

abbrev before : Packet → Result (List Packet) × PacketReader → Result (List Packet) × PacketReader
before p (err e, s) = (err e, s)
before p (ok ps, s) = (ok (p ∷ ps), s)

abbrev and_more :
    (PacketReader → Result (List Packet) × PacketReader)
    → Result Packet × PacketReader
    → Result (List Packet) × PacketReader
and_more others (err e, s) = (err e, s)
and_more others (ok p, s) = before p (others s)

-- `n` calls of `read_packet`, up to the first that raises.
unfoldable pub read_packets : ℕ → PacketReader → Result (List Packet) × PacketReader
unfolding read_packet
read_packets zero s = (ok [], s)
read_packets (suc n) s = and_more (read_packets n) (read_packet s)

ready_reads :
    (packets : List (ℤ × Bytes)) (rest : Bytes) (s : PacketReader) (held : Bytes)
    → All FitsBuffer packets
    → IsReady s held
    → s.packet_length ≡ none
    → held ++ concat s.incoming ≡ stream_of packets ++ rest
    → (after : PacketReader) × (read_packets (length packets) s ≡ (ok (packets_of packets), after))
      × (unparsed after.buffer ++ concat after.incoming ≡ rest)
unfolding read_packets
ready_reads [] rest s held fits ready fresh e =
    (s, refl, ap (λ x. x ++ concat s.incoming) (unparsed-Holds s.buffer held ready.holds) ∙ e)
ready_reads ((id, payload) ∷ packets) rest s held fits ready fresh e =
    let r =
      read_packet-Reads id payload (stream_of packets ++ rest) fits.0.0 fits.0.1 s held ready fresh
        (e ∙ append_assoc (packet_bytes id payload) (stream_of packets) rest) in
    let (after, others, left) =
      ready_reads packets rest r.after r.left fits.1 r.ready r.no_length r.arrives in
    (
      after,
      ap (and_more (read_packets (length packets))) r.returns
          ∙ ap (before (packet_of id payload)) others,
      left,
    )

-- Whatever the pieces are in which a stream of packets of at most 4 KiB arrives, and whatever part
-- of it the reader starts with, as many calls of `read_packet` as there are packets return them
-- all, in their order, and leave just what follows them.
pub read_packets-stream :
    (packets : List (ℤ × Bytes)) (rest initial : Bytes) (chunks : List Bytes)
    → All FitsBuffer packets
    → length initial < 4096
    → All Nonempty chunks
    → initial ++ concat chunks ≡ stream_of packets ++ rest
    → (reader after : PacketReader) × (open_reader initial chunks ≡ ok reader)
      × (read_packets (length packets) reader ≡ (ok (packets_of packets), after))
      × (unparsed after.buffer ++ concat after.incoming ≡ rest)
read_packets-stream packets rest initial chunks fits small nonempty e =
    let (reader, opened, at) = open_reader-IsAt initial chunks small nonempty in
    let (after, reads, left) =
      ready_reads packets rest reader at.held fits at.ready at.fresh (at.arrives ∙ e) in
    (reader, after, opened, reads, left)

-- ===== src/Proxy/Listener.antt =====
-- The voice listener of a proxy: what becomes of a datagram, the queue that it is put into, and the
-- delays between the restarts of the listener.
pub mod Laws
mod Examples
use silkjam.Prelude.{
  ℕ, suc, ◌*◌, min, Bool, true, false, not, ◌||◌, List, [], ◌∷◌, ◌++◌, length, ltb, ◌==◌,
  if◌then◌else◌,
}
use silkjam.Prelude.Int.{pos}
use silkjam.Protocol.Bytes.{Bytes, slice, bytes_eq}

-- `PING_PROTOCOL_SENTINEL`
abbrev pub ping_sentinel : Bytes
ping_sentinel =
    0x58 ∷ 0xbc ∷ 0x9a ∷ 0xe9 ∷ 0xc7 ∷ 0xa8 ∷ 0x45 ∷ 0xe4 ∷ 0xa1 ∷ 0x1c ∷ 0xef ∷ 0xbb ∷ 0x67 ∷ 0x19
    ∷ 0x94 ∷ 0x25 ∷ []

-- A datagram is dropped, answered, or handed on with the UUID of the player.
pub data Datagram : Type 0 where
  dropped : Datagram
  answered : Bytes → Datagram
  handed_on : Bytes → Datagram

abbrev pub first_byte : Bytes → ℕ
first_byte [] = 0
first_byte (b ∷ bs) = b

unfoldable pub datagram_received : Bytes → Datagram
datagram_received data_received =
    if ltb (length data_received) 17 || not (first_byte data_received == 255)
    then dropped
    else let player_id = slice data_received (pos 1) (pos 17) in
      if bytes_eq player_id ping_sentinel
      then if ltb (length data_received) 41
        then dropped
        else answered (slice data_received (pos 17) (pos 41))
      else handed_on player_id

abbrev pub voice_packet_queue_size : ℕ
voice_packet_queue_size = 1024

-- `voice_packet_queue` and `voice_queue_drops`; `handled` counts the packets taken out.
pub record Queue : Type 0 where
  pub packets : List Bytes
  pub voice_queue_drops : ℕ
  pub handled : ℕ

unfoldable pub queue_voice_packet : Bytes → Queue → Queue
queue_voice_packet packet q =
    if ltb (length q.packets) voice_packet_queue_size
    then record q { packets = q.packets ++ (packet ∷ []) }
    else record q { voice_queue_drops = suc q.voice_queue_drops }

-- The handler waits while the queue is empty.
abbrev pub handle_voice_packet : Queue → Queue
handle_voice_packet q = elim q.packets [
  | [] ↦ q
  | packet ∷ packets ↦ record q { packets = packets; handled = suc q.handled }
]

abbrev pub restart_delay : ℕ
restart_delay = 1

abbrev pub max_restart_delay : ℕ
max_restart_delay = 30

-- The delays of `_run_voice_listener`, for rounds in which the listener starts or fails to.
unfoldable pub delays : ℕ → List Bool → List ℕ
delays delay [] = []
delays delay (started ∷ rounds) =
    let now = if started then restart_delay else delay in
    now ∷ delays (min (now * 2) max_restart_delay) rounds

-- ===== src/Proxy/Listener/Laws.antt =====
-- What the voice listener does with datagrams, and its bounds.
use silkjam.Prelude.{
  ℕ, zero, suc, ◌^◌, drop, replicate, ◌+◌, ◌*◌, ◌≤◌, ◌≡◌, refl, ap, ◌∙◌, min, Bool, true, false,
  List, [], ◌∷◌, ◌++◌, length, length-append, if◌then◌else◌, arith,
}
use silkjam.Prelude.Int.{pos}
use silkjam.Protocol.Bytes.{Bytes, slice, bytes_eq}
use silkjam.Protocol.Bytes.Laws.{slice-append}
use silkjam.Proxy.Listener.{
  ping_sentinel, answered, handed_on, datagram_received, Queue, queue_voice_packet,
  handle_voice_packet, voice_packet_queue_size, restart_delay, max_restart_delay, delays,
}

player_slice :
    (id payload : Bytes) → length id ≡ 16 → slice (255 ∷ (id ++ payload)) (pos 1) (pos 17) ≡ id
player_slice id payload h =
    slice-append (255 ∷ []) id payload (pos 1) (pos 17) refl (ap pos (omega (arith, h)))

handed_on_lem :
    (id payload : Bytes)
    → length id ≡ 16
    → bytes_eq id ping_sentinel ≡ false
    → datagram_received (255 ∷ (id ++ payload)) ≡ handed_on id
unfolding datagram_received
handed_on_lem id payload h other =
    ground (arith, player_slice id payload h, length-append id payload, other, h)

challenge_slice :
    (challenge rest : Bytes)
    → length challenge ≡ 24
    → slice (255 ∷ (ping_sentinel ++ (challenge ++ rest))) (pos 17) (pos 41) ≡ challenge
challenge_slice challenge rest h =
    slice-append (255 ∷ ping_sentinel) challenge rest (pos 17) (pos 41) refl
      (ap pos (omega (arith, h)))

sentinel_equal : bytes_eq ping_sentinel ping_sentinel ≡ true
unfolding bytes_eq
sentinel_equal = refl

answered_lem :
    (challenge rest : Bytes)
    → length challenge ≡ 24
    → datagram_received (255 ∷ (ping_sentinel ++ (challenge ++ rest))) ≡ answered challenge
unfolding datagram_received
answered_lem challenge rest h = ground (
  arith,
  player_slice ping_sentinel (challenge ++ rest) refl,
  challenge_slice challenge rest h,
  length-append challenge rest,
  sentinel_equal,
  h,
)

-- A datagram with the magic byte, the 16 bytes of a player UUID and any payload is handed on for
-- this player, unless the UUID is the sentinel of connectivity pings; a ping with a challenge of 24
-- bytes is answered with the challenge, whatever follows it.
datagram_received_lem :
    (id payload challenge rest : Bytes)
    → length id ≡ 16
    → bytes_eq id ping_sentinel ≡ false
    → length challenge ≡ 24
    → (datagram_received (255 ∷ (id ++ payload)) ≡ handed_on id)
      × (datagram_received (255 ∷ (ping_sentinel ++ (challenge ++ rest))) ≡ answered challenge)
datagram_received_lem id payload challenge rest h other h' =
    (handed_on_lem id payload h other, answered_lem challenge rest h')

-- A packet comes in, or the handler gets to run.
pub data Event : Type 0 where
  arrives : Bytes → Event
  handles : Event

abbrev pub run_events : List Event → Queue → Queue
run_events [] q = q
run_events (arrives packet ∷ events) q = run_events events (queue_voice_packet packet q)
run_events (handles ∷ events) q = run_events events (handle_voice_packet q)

abbrev pub arrivals : List Event → ℕ
arrivals [] = 0
arrivals (arrives packet ∷ events) = suc (arrivals events)
arrivals (handles ∷ events) = arrivals events

abbrev pub accounted : Queue → ℕ
accounted q = q.handled + length q.packets + q.voice_queue_drops

queue_voice_packet-accounted :
    (packet : Bytes) (q : Queue)
    → length q.packets ≤ voice_packet_queue_size
    → (length ((queue_voice_packet packet q).packets) ≤ voice_packet_queue_size)
      × (accounted (queue_voice_packet packet q) ≡ suc (accounted q))
unfolding queue_voice_packet
queue_voice_packet-accounted packet q h = (
  ground (arith, h, length-append q.packets (packet ∷ [])),
  ground (arith, h, length-append q.packets (packet ∷ [])),
)

handle_voice_packet-accounted :
    (packets : List Bytes) (drops handled : ℕ)
    → length packets ≤ voice_packet_queue_size
    → (length (
          (handle_voice_packet
            (record { packets = packets; voice_queue_drops = drops; handled = handled })).packets)
        ≤ voice_packet_queue_size)
      × (accounted (
            handle_voice_packet
              (record { packets = packets; voice_queue_drops = drops; handled = handled }))
          ≡ accounted (record { packets = packets; voice_queue_drops = drops; handled = handled }))
handle_voice_packet-accounted [] drops handled h = (h, refl)
handle_voice_packet-accounted (p ∷ packets) drops handled h = (omega (arith, h), omega arith)

-- However arrivals and handling of voice packets follow each other, from a queue of at most 1024
-- packets on, it keeps at most 1024, and each packet that arrives is handled, waits in the queue or
-- is counted as dropped, once.
pub run_events_lem :
    (events : List Event) (q : Queue)
    → length q.packets ≤ voice_packet_queue_size
    → (length ((run_events events q).packets) ≤ voice_packet_queue_size)
      × (accounted (run_events events q) ≡ accounted q + arrivals events)
run_events_lem [] q h = (h, omega arith)
run_events_lem (arrives packet ∷ events) q h =
    let one = queue_voice_packet-accounted packet q h in
    let rest = run_events_lem events (queue_voice_packet packet q) one.0 in
    (rest.0, omega (arith, rest.1, one.1))
run_events_lem (handles ∷ events) q h =
    let one = handle_voice_packet-accounted q.packets q.voice_queue_drops q.handled h in
    let rest = run_events_lem events (handle_voice_packet q) one.0 in
    (rest.0, omega (arith, rest.1, one.1))

-- The delays from the one after `k` failures on.
abbrev pub backoff : ℕ → ℕ → List ℕ
backoff k zero = []
backoff k (suc n) = min (2 ^ k) max_restart_delay ∷ backoff (suc k) n

delays-failing :
    (k n : ℕ) → delays (min (2 ^ k) max_restart_delay) (replicate n false) ≡ backoff k n
unfolding delays
delays-failing k zero = refl
delays-failing k (suc n) =
    let next : min (min (2 ^ k) 30 * 2) 30 ≡ min (2 ^ suc k) 30 = omega arith in
    ap (◌∷◌ (min (2 ^ k) 30))
      (ap (λ d. delays d (replicate n false)) next ∙ delays-failing (suc k) n)

-- After a round in which the voice listener ran, whatever came before it, the delays of this round
-- and of the n failing rounds behind it are the powers of 2 from 1 on, in seconds, with 30 as the
-- most.
delays-backoff :
    (delay : ℕ) (before : List Bool) (n : ℕ)
    → drop (length before) (delays delay (before ++ (true ∷ replicate n false))) ≡ backoff 0 (suc n)
unfolding delays
delays-backoff delay [] n = ap (◌∷◌ 1) (delays-failing 1 n)
delays-backoff delay (started ∷ before) n =
    delays-backoff (min ((if started then restart_delay else delay) * 2) max_restart_delay) before n

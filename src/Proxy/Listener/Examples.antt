-- ===== src/Proxy/Listener/Examples.antt =====
-- Datagrams of the voice listener, and its queue.
use silkjam.Prelude.{◌+◌, ◌≤◌, ◌≡◌, refl, false, List, [], ◌∷◌, length, replicate, arith}
use silkjam.Protocol.Bytes.{bytes_eq}
use silkjam.Proxy.Listener.{
  ping_sentinel, dropped, datagram_received, Queue, delays, restart_delay, voice_packet_queue_size,
}
use silkjam.Proxy.Listener.Laws.{
  Event, arrives, handles, run_events, arrivals, accounted, run_events_lem,
}

other_player : bytes_eq (replicate 16 7) ping_sentinel ≡ false
unfolding bytes_eq
other_player = refl

short_datagram : datagram_received (replicate 16 255) ≡ dropped
unfolding datagram_received
short_datagram = refl

abbrev queue : Queue
queue = record { packets = []; voice_queue_drops = 0; handled = 0 }

abbrev events : List Event
events = arrives (1 ∷ []) ∷ arrives (2 ∷ []) ∷ handles ∷ []

run_events_lem_example :
    (length ((run_events events queue).packets) ≤ voice_packet_queue_size)
    × (accounted (run_events events queue) ≡ accounted queue + arrivals events)
run_events_lem_example = run_events_lem events queue (omega arith)

failing : delays restart_delay (replicate 7 false) ≡ 1 ∷ 2 ∷ 4 ∷ 8 ∷ 16 ∷ 30 ∷ 30 ∷ []
unfolding delays
failing = refl

-- ===== src/Proxy/Examples.antt =====
-- Runs of a proxy: a player joins and speaks, and another session of the player takes over.
use silkjam.Prelude.{length, ℕ, ◌≡◌, refl, Bool, true, Option, none, some, [], arith}
use silkjam.Prelude.Dict.{lookup, store, remove}
use silkjam.Prelude.Sets.{mem}
use silkjam.Proxy.Sessions.{Session, track, oldest, selected, untrack}
use silkjam.Proxy.Sessions.Oldest.{backend_of}
use silkjam.Proxy.Bridges.{
  Addr, Voice, find, pop, put, begin_bridge, close_where, close_voice_bridge, finish_bridge,
  start_session, end_session, close_all_voice_bridges, close_player_voice_bridges,
}
use silkjam.Proxy.Steps.{Pending, finish, empty, starts, opens, finishes, ends, Run, begin, next}
use silkjam.Proxy.Steps.Routes.{IsRouted, IsInTime, Run-IsRouted}
use silkjam.Proxy.Steps.Transports.Safe.{close_all_voice_bridges_lem}

abbrev home : Addr
home = record { host = 5; port = 40000 }

abbrev old_session : Session
old_session = record { time = 10; backend = 2; client_ip = 5 }

abbrev new_session : Session
new_session = record { time = 20; backend = 3; client_ip = 5 }

abbrev joined : Voice
joined = start_session 7 101 old_session empty

abbrev voice_port : ℕ → Option ℕ
voice_port backend = some 24454

abbrev running : ℕ → Bool
running backend = true

abbrev speaking : Pending
speaking = record { player = 7; backend = 2; addr = home; now = 11 }

abbrev spoken : Voice
spoken = finish speaking joined

abbrev talk : Run none spoken
unfolding begin_bridge selected oldest lookup find start_session track store
talk =
    next
      (next (next begin (starts 7 101 old_session tt))
        (opens voice_port running true speaking refl))
      (finishes speaking)

abbrev moved : Voice
moved = start_session 7 102 new_session spoken

abbrev takeover : Run none (end_session 7 101 moved)
unfolding start_session track store lookup finish_bridge
takeover = next (next talk (starts 7 102 new_session (omega arith, tt))) (ends 7 101)

takeover-IsInTime : IsInTime takeover
unfolding start_session track store selected oldest lookup backend_of takeover talk
takeover-IsInTime = (((((tt, tt), tt), refl), tt), tt)

Run-IsRouted_example : IsRouted (end_session 7 101 moved)
Run-IsRouted_example = Run-IsRouted takeover takeover-IsInTime

-- The session that goes takes its bridge along.
takeover_bridges : (end_session 7 101 moved).bridges ≡ []
unfolding end_session untrack oldest lookup store remove start_session track finish_bridge put
    close_player_voice_bridges close_where close_voice_bridge find pop
takeover_bridges = refl

close_all_voice_bridges_lem_example : mem 0 ((close_all_voice_bridges moved).closed) ≡ true
unfolding start_session finish_bridge lookup store
close_all_voice_bridges_lem_example =
    close_all_voice_bridges_lem (next talk (starts 7 102 new_session (omega arith, tt))) 0
      (omega arith)

-- The player speaks from another port.
abbrev away : Addr
away = record { host = 5; port = 40001 }

-- The last session of the player ends while an endpoint is awaited.
late_endpoint : (finish speaking (end_session 7 101 joined)).sessions ≡ []
unfolding end_session untrack oldest lookup store remove start_session track finish_bridge put
    close_player_voice_bridges close_where
late_endpoint = refl

late_endpoint_left : length ((finish speaking (end_session 7 101 joined)).bridges) ≡ 1
unfolding end_session untrack oldest lookup store remove start_session track finish_bridge put
    close_player_voice_bridges close_where
late_endpoint_left = refl

-- Two sessions of a player under one id: after one has ended, the player is not tracked.
same_id : selected 7 ((end_session 7 101 (start_session 7 101 new_session joined)).sessions) ≡ none
unfolding end_session untrack oldest lookup store remove start_session track selected
    close_player_voice_bridges close_where
same_id = refl

-- ===== src/Backend/Examples.antt =====
-- A server that ignores its stop command, and one whose last player leaves.
use silkjam.Prelude.{ℕ, ◌≡◌, refl, true, false, Option, none, some, List, [], ◌∷◌}
use silkjam.Prelude.Dict.{lookup}
use silkjam.Prelude.Int.{ℤ, pos, negsuc, pos_part, ◌-ℤ◌, ◌+ℤ◌}
use silkjam.Supervisor.{Supervisor, new_state, running}
use silkjam.Supervisor.Queries.{is_running, is_stopped}
use silkjam.Supervisor.Timer.{Timer, remaining}
use silkjam.Backend.Process.{
  Sent, Reaction, exits, stays, stop_command, sigint, sigterm, sigkill, stop_process, expected,
  Stops, stop_process_lem,
}
use silkjam.Backend.Sleep.{
  Backend, sleep_timer_stopped, mcproc_running, online_players, on_player_change,
  set_online_players, incr_online_players, decr_online_players, report_none_at,
}
use silkjam.Backend.Sleep.Laws.{full_timeout}

abbrev ends_on_sigint : Sent → Reaction
ends_on_sigint stop_command = stays
ends_on_sigint sigint = exits 130
ends_on_sigint sigterm = stays
ends_on_sigint sigkill = exits 137

stop_process_lem_example :
    Stops (stop_process true ends_on_sigint true none) (expected ends_on_sigint none)
stop_process_lem_example = stop_process_lem ends_on_sigint true none

interrupted : (stop_process true ends_on_sigint true none).sent ≡ stop_command ∷ sigint ∷ []
unfolding stop_process
interrupted = refl

abbrev with_unit : ℕ → Supervisor
with_unit unit = record {
  units = (unit, new_state false running) ∷ [];
  running_unit_tasks = [];
  command_queue = [];
  locked = false;
  cancelled = [];
  next_task = 0;
}

abbrev timer : Option ℤ → Timer
timer timeout = record {
  timeout = timeout;
  start_time = pos 0;
  timeout_changed = false;
  remaining_changed = false;
}

abbrev backend : Backend
backend = record {
  units = with_unit 0;
  supervisor = with_unit 4;
  name = 4;
  sleep_timer = timer (some (pos 300));
  status_checker = timer (some (pos 60));
  sleep_timeout = some (pos 300);
  listed_players = pos 1;
  online_player_change = true;
}

backend_runs : mcproc_running backend ≡ true
unfolding mcproc_running is_running lookup new_state
backend_runs = refl

timer_runs : sleep_timer_stopped backend ≡ false
unfolding is_stopped lookup new_state
timer_runs = refl

abbrev reports : List ℤ
reports = pos 100 ∷ pos 160 ∷ pos 161 ∷ []

full_timeout_example :
    (remaining (pos 190) ((report_none_at reports (on_player_change (pos 50) backend)).sleep_timer)
      ≡ some (pos_part (pos 300 -ℤ (pos 190 -ℤ pos 100))))
    × ((report_none_at reports (on_player_change (pos 50) backend)).supervisor ≡ with_unit 4)
full_timeout_example =
    full_timeout (pos 50) (pos 100) (pos 190) (pos 300) (pos 160 ∷ pos 161 ∷ []) backend
      backend_runs refl timer_runs refl

-- A status report of no players comes between the login of a player and its end.
below_zero :
    (decr_online_players (set_online_players (pos 0) (incr_online_players backend))).listed_players
    ≡ negsuc 0
unfolding incr_online_players decr_online_players set_online_players online_players mcproc_running
    is_running lookup new_state ◌+ℤ◌ ◌-ℤ◌
below_zero = refl

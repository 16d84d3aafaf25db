-- ===== src/Supervisor/Until/Examples.antt =====
-- Rounds of the supervise loop, and the theorems at concrete states.
use silkjam.Prelude.{ℕ, ◌≡◌, refl, true, false, not, ◌&&◌, none, some, [], ◌∷◌}
use silkjam.Prelude.Sets.{mem, discard}
use silkjam.Prelude.Dict.{lookup, store, remove}
use silkjam.Supervisor.{Supervisor, running, stopped, new_state}
use silkjam.Supervisor.Loop.{
  Progress, event_done, task_done, first_event, is_met, restart_ready, handle_done, handle_all_done,
  add_pending, after_wait, clear_task,
}
use silkjam.Supervisor.Commands.{start_unit_nowait, stop_unit_nowait}
use silkjam.Supervisor.Until.{
  Round, returned, supervise, supervise_until, supervise_until_event, supervise_until_done_starting,
  start_unit, done_entering_of, stop_all, stop_supervisor,
}
use silkjam.Supervisor.Until.Returns.{Promised, all_in, units_of, supervise_until_lem}
use silkjam.Supervisor.Until.Stopping.{stop_supervisor-idle}

-- A unit 1 that runs as task 7.
abbrev busy : Supervisor
busy = record {
  units = (1, record (new_state false running) { task = some 7 }) ∷ [];
  running_unit_tasks = (7, 1) ∷ [];
  command_queue = [];
  locked = false;
  cancelled = [];
  next_task = 8;
}

abbrev event_round : ℕ → Round
event_round e = record { meanwhile = λ s. s; commanded = false; done = event_done e ∷ [] }

abbrev task_round : Round
task_round = record {
  meanwhile = λ s. record s { command_queue = [] };
  commanded = false;
  done = task_done 7 none ∷ [];
}

abbrev progress_of_event : Progress
progress_of_event = record {
  done_events = 3 ∷ [];
  done_units = [];
  pending_events = 4 ∷ [];
  pending_units = 1 ∷ [];
}

event_returns :
    supervise_until (3 ∷ 4 ∷ []) first_event (event_round 3 ∷ []) busy
    ≡ returned (busy, progress_of_event) []
unfolding supervise_until supervise after_wait restart_ready handle_all_done handle_done add_pending
    is_met discard new_state
event_returns = refl

supervise_until_lem_example :
    Promised first_event (3 ∷ 4 ∷ []) busy progress_of_event
    × (mem 4 (4 ∷ []) ≡ (mem 4 (3 ∷ 4 ∷ []) && not (mem 4 (3 ∷ []))))
    × (all_in (units_of busy.running_unit_tasks) (1 ∷ []) ≡ true)
supervise_until_lem_example =
    supervise_until_lem (3 ∷ 4 ∷ []) first_event (event_round 3 ∷ []) [] busy busy progress_of_event
      4 event_returns

-- The unit without its task, and with the stop that was scheduled.
abbrev idle : Supervisor
idle = record busy {
  units =
      (
        1,
        record (new_state false running) {
          task = none;
          pending_stop = true;
          force_pending_stop = true;
        },
      )
      ∷ [];
  running_unit_tasks = [];
}

task_stops : stop_supervisor (task_round ∷ []) busy ≡ returned idle []
unfolding stop_supervisor stop_all stop_unit_nowait supervise_until supervise after_wait
    restart_ready handle_all_done handle_done clear_task add_pending is_met discard new_state lookup
    store remove
task_stops = refl

stop_supervisor-idle_example : idle.running_unit_tasks ≡ []
stop_supervisor-idle_example = stop_supervisor-idle (task_round ∷ []) [] busy idle task_stops

-- A unit that is to start is waited for.
abbrev new_unit : Supervisor
new_unit = record busy { units = (1, new_state false stopped) ∷ []; running_unit_tasks = [] }

starts_true :
    (s : Supervisor) × (start_unit 1 (event_round (done_entering_of 1) ∷ []) new_unit
      ≡ returned (true, s) [])
unfolding start_unit start_unit_nowait supervise_until_done_starting supervise_until_event
    supervise_until supervise after_wait restart_ready handle_all_done handle_done add_pending
    is_met discard new_state lookup store mem
starts_true = (_, refl)

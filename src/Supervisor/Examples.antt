-- ===== src/Supervisor/Examples.antt =====
-- The theorems on the supervisor, at concrete states.
use silkjam.Prelude.{List, ◌≡◌, refl, true, false, none, some, [], ◌∷◌, arith}
use silkjam.Prelude.Dict.{lookup, store}
use silkjam.Supervisor.BaseUnit.{BaseUnit, Alternates, calls, calls-Alternates}
use silkjam.Supervisor.BaseUnit
use silkjam.Supervisor.{Supervisor, State, start, ready, running, new_state, empty_supervisor}
use silkjam.Supervisor.Commands.{
  add_unit, remove_unit_nowait, start_unit_nowait, stop_unit_nowait, handle_command,
  handle_command_queue,
}
use silkjam.Supervisor.Lifecycle.{waits}
use silkjam.Supervisor.Loop.{Progress, handle_done, task_done, every}
use silkjam.Supervisor.Invariant.{IsConsistent}
use silkjam.Supervisor.Reachable.{IsReachable, init, then, adds, start_never_raises, removed_idle}
use silkjam.Supervisor.Queries.{is_starting, is_running, is_stopping}
use silkjam.Supervisor.Races.{late_stop, lost_task, end_alone}

-- Unit 7 added, with its START in the queue.
abbrev with_seven : Supervisor
with_seven = (add_unit empty_supervisor 7 true false).1

abbrev seven_reachable : IsReachable with_seven
seven_reachable = then init (adds empty_supervisor 7 true false)

start_never_raises_example :
    (s' : Supervisor) × (handle_command (record with_seven { command_queue = [] }) start 7
      ≡ some s')
    × IsConsistent s'
unfolding add_unit start_unit_nowait lookup store new_state
start_never_raises_example = start_never_raises with_seven 7 [] seven_reachable (tt, tt) refl

abbrev running_state : State
running_state = record {
  restart = true;
  status = running;
  task = some 0;
  result = none;
  pending_start = false;
  pending_stop = false;
  force_pending_stop = false;
  done_entering = true;
  done_exiting = false;
}

abbrev one_running : Supervisor
one_running = record {
  units = (7, running_state) ∷ [];
  running_unit_tasks = (0, 7) ∷ [];
  command_queue = [];
  locked = true;
  cancelled = [];
  next_task = 1;
}

late_stop_example :
    (state' : State) × (s' : Supervisor) × (lookup 7
        ((stop_unit_nowait one_running 7 false).1).units
      ≡ some state')
    × (end_alone ((stop_unit_nowait one_running 7 false).1) 7 state' ≡ waits s')
    × (handle_command_queue every s' ≡ none)
unfolding lookup
late_stop_example = late_stop 7 one_running running_state false refl refl refl refl refl

abbrev ended_state : State
ended_state = record running_state { status = ready; task = none; pending_start = true }

abbrev one_ended : Supervisor
one_ended = record one_running { units = (7, ended_state) ∷ []; command_queue = (start, 7) ∷ [] }

abbrev progress : Progress
progress = record { done_events = []; done_units = []; pending_events = []; pending_units = 7 ∷ [] }

lost_task_example :
    (s' : Supervisor) × (handle_command_queue every one_ended ≡ some s')
    × (lookup 1 ((handle_done (s', progress) (task_done 0 none)).0).running_unit_tasks ≡ some 7)
    × (state' : State) × (lookup 7 ((handle_done (s', progress) (task_done 0 none)).0).units
        ≡ some state')
    × (state'.task ≡ none)
unfolding lookup
lost_task_example =
    lost_task 7 one_ended progress ended_state 0 none refl refl refl (omega arith) refl

abbrev fresh_unit : BaseUnit
fresh_unit = record { started = false }

abbrev four_calls : List BaseUnit.Call
four_calls = BaseUnit.aenter ∷ BaseUnit.start ∷ BaseUnit.stop ∷ BaseUnit.aexit true ∷ []

calls-Alternates_example :
    Alternates false ((calls four_calls fresh_unit).0) ((calls four_calls fresh_unit).1).started
calls-Alternates_example = calls-Alternates four_calls fresh_unit

-- Unit 7 added as stopped.
abbrev with_stopped : Supervisor
with_stopped = (add_unit empty_supervisor 7 true true).1

removed_idle_example :
    (is_starting with_stopped 7 ≡ some false)
    × (is_running with_stopped 7 ≡ some false)
    × (is_stopping with_stopped 7 ≡ some false)
unfolding add_unit lookup new_state remove_unit_nowait store
removed_idle_example =
    removed_idle with_stopped 7 (then init (adds empty_supervisor 7 true true)) (tt, tt) refl

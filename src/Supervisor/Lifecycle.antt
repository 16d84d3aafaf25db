-- ===== src/Supervisor/Lifecycle.antt =====
-- `_run_unit`, cut where it waits: at the start of the task, and after the unit's `__aenter__`,
-- `run` and `__aexit__`, each of which ends with an outcome (`none` for no exception). A `cancel`
-- makes one of these outcomes a `CancelledError`, that of the `sleep(0)` before it included.
use silkjam.Prelude.{ℕ, Bool, true, false, not, ◌&&◌, ◌||◌, Option, none, some, if◌then◌else◌}
use silkjam.Prelude.Dict.{remove}
use silkjam.Supervisor.{
  Status, ready, entering, running, exiting, stopped, Raised, exception, State, Supervisor,
}
use silkjam.Supervisor.Commands.{put, stop_unit}

-- What a phase leads to: it waits again, it raises, or an assertion of the clean-up fails.
pub data Phase : Type 0 where
  waits : Supervisor → Phase
  raised : Raised → Phase
  failed : Phase

-- `isinstance(KeyboardInterrupt, SystemExit)`: the class `KeyboardInterrupt` is no instance of
-- `SystemExit`, whatever was raised.
abbrev pub reraised : Raised → Bool
reraised err = false

-- The first half of the `finally` block.
unfoldable pub begin_exit : Supervisor → ℕ → State → Phase
begin_exit s unit state =
    waits
      (put s unit (record state { done_entering = true; pending_start = false; status = exiting }))

-- A failed assertion of `_stop_unit` is caught like any exception; it is the exception 0 here.
abbrev pub or_exits : Supervisor → ℕ → State → Option Supervisor → Phase
or_exits s unit state none = begin_exit s unit (record state { result = some (exception 0) })
or_exits s unit state (some s') = waits s'

unfoldable pub begin : Supervisor → ℕ → State → Phase
unfolding stop_unit begin_exit
begin s unit state =
    let state' = (record state {
      result = none;
      done_entering = false;
      done_exiting = false;
      status = entering;
    }) in
    let s' = put s unit state' in
    if state.pending_stop && state.force_pending_stop
    then or_exits s' unit state' (stop_unit s' state')
    else waits s'

unfoldable pub entered : Supervisor → ℕ → State → Option Raised → Phase
unfolding stop_unit begin_exit
entered s unit state (some err) =
    if reraised err then raised err else begin_exit s unit (record state { result = some err })
entered s unit state none =
    let state' = (record state { done_entering = true; pending_start = false; status = running }) in
    let s' = put s unit state' in
    if state.pending_stop then or_exits s' unit state' (stop_unit s' state') else waits s'

unfoldable pub ran : Supervisor → ℕ → State → Option Raised → Phase
unfolding begin_exit
ran s unit state (some err) =
    if reraised err then raised err else begin_exit s unit (record state { result = some err })
ran s unit state none = begin_exit s unit (record state { result = none })

-- `Status.STOPPED if state.pending_stop or not state.restart else Status.READY`
abbrev pub final_status : State → Status
final_status state = if state.pending_stop || not state.restart then stopped else ready

-- The clean-up at the end.
unfoldable pub finish : Supervisor → ℕ → State → Phase
finish s unit state =
    let state' = (record state {
      done_exiting = true;
      status = final_status state;
      pending_stop = false;
      force_pending_stop = false;
      task = none;
      done_entering = false;
    }) in
    if not s.locked
    then elim state.task [
      | none ↦ failed
      | some task ↦
          waits
            (put (record s { running_unit_tasks = remove task s.running_unit_tasks }) unit state')
    ]
    else waits (put s unit state')

unfoldable pub exited : Supervisor → ℕ → State → Option Raised → Phase
unfolding finish
exited s unit state (some err) =
    if reraised err then raised err else finish s unit (record state { result = some err })
exited s unit state none = finish s unit state

-- ===== src/Supervisor/Commands.antt =====
-- The methods of the supervisor that return at once, and the handling of the command queue.
use silkjam.Prelude.{
  ℕ, suc, Bool, true, false, not, ◌||◌, Option, none, some, List, [], ◌∷◌, ◌++◌, if◌then◌else◌,
}
use silkjam.Prelude.Dict.{lookup, store, remove}
use silkjam.Supervisor.{
  ready, entering, running, exiting, stopped, Command, start, stop, State, Supervisor, new_state,
  same_status,
}

-- `state` is the object in `_units[unit]`: an assignment to its fields stores it again.
abbrev pub put : Supervisor → ℕ → State → Supervisor
put s unit state = record s { units = store unit state s.units }

-- `_command_queue.put_nowait((command, unit))`
abbrev pub enqueue : Supervisor → Command → ℕ → Supervisor
enqueue s command unit = record s { command_queue = s.command_queue ++ ((command, unit) ∷ []) }

abbrev pub is_some {ℓ} : {A : Type ℓ} → Option A → Bool
is_some none = false
is_some (some a) = true

unfoldable pub start_unit_nowait : Supervisor → ℕ → Bool × Supervisor
start_unit_nowait s unit = elim (lookup unit s.units) [
  | none ↦ (false, s)
  | some state ↦
      let scheduled =
        if state.pending_start
        then put s unit (record state { status = ready })
        else put (enqueue s start unit) unit
            (record state { status = ready; pending_start = true }) in
      if state.pending_stop then (false, s) else elim state.status [
        | ready ↦ (true, scheduled)
        | stopped ↦ (true, scheduled)
        | entering ↦ (true, s)
        | running ↦ (true, s)
        | exiting ↦ (false, s)
      ]
]

unfoldable pub stop_unit_nowait : Supervisor → ℕ → Bool → Bool × Supervisor
stop_unit_nowait s unit force = elim (lookup unit s.units) [
  | none ↦ (false, s)
  | some state ↦
      let scheduled =
        if state.pending_stop
        then s
        else put (enqueue s stop unit) unit (record state {
          pending_stop = true;
          force_pending_stop = state.force_pending_stop || force;
        }) in
      let idle =
        if state.pending_start then scheduled else put s unit (record state { status = stopped }) in
      elim state.status [
        | ready ↦ (true, idle)
        | stopped ↦ (true, idle)
        | entering ↦ (true, scheduled)
        | running ↦ (true, scheduled)
        | exiting ↦ (true, put s unit (record state { pending_stop = true }))
      ]
]

unfoldable pub add_unit : Supervisor → ℕ → Bool → Bool → Bool × Supervisor
unfolding start_unit_nowait new_state
add_unit s unit restart stopped_first = elim (lookup unit s.units) [
  | some state ↦ (false, s)
  | none ↦
      if not stopped_first
      then (true, (start_unit_nowait (put s unit (new_state restart ready)) unit).1)
      else (true, put s unit (new_state restart stopped))
]

unfoldable pub remove_unit_nowait : Supervisor → ℕ → Bool × Supervisor
remove_unit_nowait s unit = elim (lookup unit s.units) [
  | none ↦ (false, s)
  | some state ↦
      if is_some state.task || state.pending_start
      then (false, s)
      else (true, record s { units = remove unit s.units })
]

-- `_start_unit`: a new task, which has not run yet.
unfoldable pub start_unit : Supervisor → ℕ → State → Supervisor
start_unit s unit state =
    put
      (record s {
        running_unit_tasks = store s.next_task unit s.running_unit_tasks;
        next_task = suc s.next_task;
      })
      unit (record state { task = some s.next_task })

-- `_stop_unit`; `none` is its failed assertion.
unfoldable pub stop_unit : Supervisor → State → Option Supervisor
stop_unit s state = elim state.task [
  | none ↦ none
  | some task ↦ some (record s { cancelled = task ∷ s.cancelled })
]

-- One command; `none` stands for a `RuntimeError` or a failed assertion.
unfoldable pub handle_command : Supervisor → Command → ℕ → Option Supervisor
unfolding start_unit stop_unit
handle_command s start unit = elim (lookup unit s.units) [
  | none ↦ none
  | some state ↦ if is_some state.task then none else some (start_unit s unit state)
]
handle_command s stop unit = elim (lookup unit s.units) [
  | none ↦ none
  | some state ↦
      if same_status state.status entering
      then (if state.force_pending_stop then stop_unit s state else some s)
      else (if state.pending_start
          then some s
          else (if is_some state.task then stop_unit s state else none))
]

abbrev pub Allowed : Type 0
Allowed = Command → Bool

-- The commands of the queue in their order; no handler queues a command.
unfoldable pub handle_all : Allowed → Supervisor → List (Command × ℕ) → Option Supervisor
unfolding handle_command
handle_all allowed s [] = some s
handle_all allowed s ((command, unit) ∷ items) =
    let discarded = handle_all allowed s items in
    if not (allowed command) then discarded else elim (handle_command s command unit) [
      | none ↦ none
      | some s' ↦ handle_all allowed s' items
    ]

unfoldable pub handle_command_queue : Allowed → Supervisor → Option Supervisor
unfolding handle_all
handle_command_queue allowed s =
    handle_all allowed (record s { command_queue = [] }) s.command_queue

-- ===== src/Supervisor/Races.antt =====
-- Two orders of events in which the supervisor loses track of a unit, and repeated calls.
use silkjam.Prelude.{
  ℕ, ◌<◌, ◌≢◌, ◌≡◌, refl, sym, Bool, true, false, ◌||◌, Option, none, some, [], ◌∷◌, ◌∙◌, arith,
}
use silkjam.Prelude.Dict.{
  lookup, store, remove, lookup-store, lookup-store_other, lookup-remove_other,
}
use silkjam.Supervisor.{running, exiting, stopped, start, stop, State, Supervisor, Raised}
use silkjam.Supervisor.Commands.{
  put, enqueue, stop_unit_nowait, handle_command, handle_all, handle_command_queue, start_unit,
}
use silkjam.Supervisor.Lifecycle.{Phase, waits, begin_exit, ran, exited, finish, final_status}
use silkjam.Supervisor.Loop.{Progress, task_done, handle_done, clear_task, every}

-- A unit whose stop is in the queue ends on its own: its run and its exit finish before the
-- supervisor, which waits, takes the STOP.
unfoldable pub end_alone : Supervisor → ℕ → State → Phase
unfolding ran exited
end_alone s unit state = elim (ran s unit state none) [
  | waits s' ↦ elim (lookup unit s'.units) [
    | none ↦ waits s'
    | some state' ↦ exited s' unit state' none
  ]
  | other ↦ other
]

module _ (unit : ℕ) where
  raises :
      (s : Supervisor) (state : State)
      → s.command_queue ≡ (stop, unit) ∷ []
      → lookup unit s.units ≡ some state
      → state.status ≡ stopped
      → state.pending_start ≡ false
      → state.task ≡ none
      → handle_command_queue every s ≡ none
  unfolding handle_command_queue handle_all handle_command
  raises s state q e r ps t =
      rw (handle_command_queue, q, handle_all, handle_command, e, r, ps, t) refl

  ends :
      (s : Supervisor) (state : State)
      → s.locked ≡ true
      → state.pending_stop ≡ true
      → (s' : Supervisor) × (state' : State) × (end_alone s unit state ≡ waits s')
        × (s'.command_queue ≡ s.command_queue)
        × (lookup unit s'.units ≡ some state')
        × (state'.status ≡ stopped)
        × (state'.pending_start ≡ false)
        × (state'.task ≡ none)
  unfolding end_alone ran exited begin_exit finish
  ends s state l ps =
      let state₁ : State = record state {
        result = none;
        done_entering = true;
        pending_start = false;
        status = exiting;
      } in
      let state₂ : State = record state₁ {
        done_exiting = true;
        status = final_status state₁;
        pending_stop = false;
        force_pending_stop = false;
        task = none;
        done_entering = false;
      } in
      (
        put (put s unit state₁) unit state₂,
        state₂,
        rw (end_alone, lookup-store unit state₁ s.units, l) refl,
        refl,
        lookup-store unit state₂ (store unit state₁ s.units),
        rw ps refl,
        refl,
        refl,
      )

  stop_running :
      (s : Supervisor) (state : State) (force : Bool)
      → s.command_queue ≡ []
      → lookup unit s.units ≡ some state
      → state.status ≡ running
      → state.pending_stop ≡ false
      → (state' : State) × (lookup unit ((stop_unit_nowait s unit force).1).units ≡ some state')
        × (state'.pending_stop ≡ true)
        × (((stop_unit_nowait s unit force).1).command_queue ≡ (stop, unit) ∷ [])
        × (((stop_unit_nowait s unit force).1).locked ≡ s.locked)
  unfolding stop_unit_nowait
  stop_running s state force q e r ps =
      let state' : State = record state {
        pending_stop = true;
        force_pending_stop = state.force_pending_stop || force;
      } in
      let stopping : stop_unit_nowait s unit force ≡ (true, put (enqueue s stop unit) unit state') =
        ground (arith, e, r, ps) in
      (
        state',
        rw stopping (lookup-store unit state' s.units),
        refl,
        rw (stopping, q) refl,
        rw stopping refl,
      )

  -- A running unit is stopped while the supervisor waits, and then ends on its own before the
  -- supervisor takes the STOP from the queue: handling the queue raises `RuntimeError`.
  pub late_stop :
      (s : Supervisor) (state : State) (force : Bool)
      → s.command_queue ≡ []
      → s.locked ≡ true
      → lookup unit s.units ≡ some state
      → state.status ≡ running
      → state.pending_stop ≡ false
      → (state' : State) × (s' : Supervisor) × (lookup unit
            ((stop_unit_nowait s unit force).1).units
          ≡ some state')
        × (end_alone ((stop_unit_nowait s unit force).1) unit state' ≡ waits s')
        × (handle_command_queue every s' ≡ none)
  late_stop s state force q l e r ps =
      let (state', e', ps', q', l') = stop_running s state force q e r ps in
      let (s', state'', end, q'', e'', r'', p'', t'') =
        ends ((stop_unit_nowait s unit force).1) state' (l' ∙ l) ps' in
      (state', s', e', end, raises s' state'' (q'' ∙ q') e'' r'' p'' t'')

  -- A unit whose task ended is started again before the supervisor, which waited, collects the
  -- task: the START is handled first, then the unit's state loses the new task, which runs.
  pub lost_task :
      (s : Supervisor) (p : Progress) (state : State) (task : ℕ) (result : Option Raised)
      → s.command_queue ≡ (start, unit) ∷ []
      → lookup unit s.units ≡ some state
      → state.task ≡ none
      → task < s.next_task
      → lookup task s.running_unit_tasks ≡ some unit
      → (s' : Supervisor) × (handle_command_queue every s ≡ some s')
        × (lookup s.next_task ((handle_done (s', p) (task_done task result)).0).running_unit_tasks
            ≡ some unit)
        × (state' : State) × (lookup unit ((handle_done (s', p) (task_done task result)).0).units
            ≡ some state')
        × (state'.task ≡ none)
  unfolding handle_command_queue handle_all handle_command start_unit handle_done clear_task
  lost_task s p state task result q e t lt found =
      let old : task ≢ s.next_task = λ same. omega (arith, same) in
      let state₁ : State = record state { task = some s.next_task } in
      let s' : Supervisor = start_unit (record s { command_queue = [] }) unit state in
      let started : handle_command_queue every s ≡ some s' =
        rw (handle_command_queue, q, handle_all, handle_command, e, t) refl in
      let done : (handle_done (s', p) (task_done task result)).0 ≡ record s' {
        units = store unit (record state { task = none }) s'.units;
        running_unit_tasks = remove task s'.running_unit_tasks;
      } =
        rw
          (
            handle_done,
            lookup-store_other task s.next_task unit s.running_unit_tasks old,
            found,
            clear_task,
            lookup-store unit state₁ s.units,
          )
          refl in
      (
        s',
        started,
        rw
            (
              done,
              lookup-remove_other s.next_task task (store s.next_task unit s.running_unit_tasks)
                  (λ same. old (sym same)),
            )
            (lookup-store s.next_task unit s.running_unit_tasks),
        record state { task = none },
        rw done (lookup-store unit (record state { task = none }) (store unit state₁ s.units)),
        refl,
      )

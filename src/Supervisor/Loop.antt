-- ===== src/Supervisor/Loop.antt =====
-- The supervise loop, `_supervise_until`: the restarts before it waits, and what it does with the
-- tasks that are done. Events are numbers, as units are.
use silkjam.Prelude.{
  ℕ, Bool, true, false, not, ◌&&◌, ◌||◌, Option, none, some, List, [], ◌∷◌, if◌then◌else◌,
}
use silkjam.Prelude.Dict.{lookup, store, remove}
use silkjam.Prelude.Sets.{discard}
use silkjam.Supervisor.{ready, State, Supervisor, Raised, same_status}
use silkjam.Supervisor.Commands.{put, start_unit_nowait, handle_command_queue, Allowed}

-- The scan over `_units` at the top of the loop; starting a unit changes no other unit.
unfoldable pub restart_ready : Supervisor → List (ℕ × State) → Supervisor
unfolding start_unit_nowait
restart_ready s [] = s
restart_ready s ((unit, state) ∷ units) =
    if state.restart && same_status state.status ready && not state.pending_start
    then restart_ready ((start_unit_nowait s unit).1) units
    else restart_ready s units

pub data ReturnWhen : Type 0 where
  first_event first_unit first_event_or_unit all_events all_units all_events_and_units : ReturnWhen

-- The sets that the loop returns: events and units, done and pending. Sets are lists.
pub record Progress : Type 0 where
  pub done_events : List ℕ
  pub done_units : List (ℕ × Option Raised)
  pub pending_events : List ℕ
  pub pending_units : List ℕ

abbrev pub insert : ℕ → List ℕ → List ℕ
insert x ys = x ∷ discard x ys

-- A task that `asyncio.wait` reports: an event's, or a unit's with its result.
pub data Done : Type 0 where
  event_done : ℕ → Done
  task_done : ℕ → Option Raised → Done

-- `state.task = None` of a unit that is still known.
unfoldable pub clear_task : Supervisor → ℕ → Supervisor
clear_task s unit = elim (lookup unit s.units) [
  | none ↦ s
  | some state ↦ put s unit (record state { task = none })
]

unfoldable pub handle_done : Supervisor × Progress → Done → Supervisor × Progress
unfolding clear_task
handle_done (s, p) (event_done event) = (
  s,
  record p {
    done_events = insert event p.done_events;
    pending_events = discard event p.pending_events;
  },
)
handle_done (s, p) (task_done task result) = elim (lookup task s.running_unit_tasks) [
  | none ↦ (s, p)
  | some unit ↦
      let s' = clear_task s unit in
      (
        record s' { running_unit_tasks = remove task s'.running_unit_tasks },
        record p {
          done_units = store unit result p.done_units;
          pending_units = discard unit p.pending_units;
        },
      )
]

unfoldable pub handle_all_done : Supervisor × Progress → List Done → Supervisor × Progress
unfolding handle_done
handle_all_done sp [] = sp
handle_all_done sp (d ∷ ds) = handle_all_done (handle_done sp d) ds

-- Every unit with a task is pending.
unfoldable pub add_pending : List (ℕ × ℕ) → List ℕ → List ℕ
add_pending [] units = units
add_pending ((task, unit) ∷ tasks) units = add_pending tasks (insert unit units)

abbrev pub none_left {ℓ} : {A : Type ℓ} → List A → Bool
none_left [] = true
none_left (x ∷ xs) = false

-- Whether the return condition is met.
unfoldable pub is_met : ReturnWhen → Progress → Bool
is_met first_event p = not (none_left p.done_events)
is_met first_unit p = not (none_left p.done_units)
is_met first_event_or_unit p = not (none_left p.done_events) || not (none_left p.done_units)
is_met all_events p = none_left p.pending_events
is_met all_units p = none_left p.pending_units
is_met all_events_and_units p = none_left p.pending_events && none_left p.pending_units

abbrev pub every : Allowed
every command = true

-- The second half of a round: what follows `asyncio.wait`. `commanded` tells whether a command was
-- among what is done; the last component is whether the loop returns.
unfoldable pub after_wait :
    ReturnWhen → Supervisor × Progress → Bool → List Done → Option ((Supervisor × Progress) × Bool)
unfolding handle_all_done handle_command_queue add_pending is_met
after_wait return_when (s, p) commanded done =
    let unlocked = (record s { locked = false }) in
    elim (if commanded then handle_command_queue every unlocked else some unlocked) [
      | none ↦ none
      | some s' ↦
          let (s'', q) = handle_all_done (s', p) done in
          let q' = (record q {
            pending_units = add_pending s''.running_unit_tasks q.pending_units;
          }) in
          some ((s'', q'), is_met return_when q')
    ]

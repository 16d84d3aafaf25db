-- ===== src/Supervisor/Queries.antt =====
-- The questions that other tasks ask about a unit.
use silkjam.Prelude.{ℕ, Bool, true, false, not, ◌||◌, Option, none, some, if◌then◌else◌}
use silkjam.Prelude.Dict.{lookup}
use silkjam.Supervisor.{
  Status, ready, entering, running, exiting, stopped, State, Supervisor, same_status,
}
use silkjam.Supervisor.Commands.{is_some}

unfoldable pub status_of : Supervisor → ℕ → Option Status
status_of s unit = elim (lookup unit s.units) [ none ↦ none | some state ↦ some state.status ]

-- Whether the status of a unit is the given one, of a unit that was added.
abbrev pub has_status : Supervisor → ℕ → Status → Option Bool
has_status s unit status = elim (lookup unit s.units) [
  | none ↦ none
  | some state ↦ some (same_status state.status status)
]

unfoldable pub is_ready : Supervisor → ℕ → Option Bool
is_ready s unit = has_status s unit ready

unfoldable pub is_starting : Supervisor → ℕ → Option Bool
is_starting s unit = has_status s unit entering

unfoldable pub is_running : Supervisor → ℕ → Option Bool
is_running s unit = has_status s unit running

unfoldable pub is_stopping : Supervisor → ℕ → Option Bool
is_stopping s unit = has_status s unit exiting

unfoldable pub is_stopped : Supervisor → ℕ → Option Bool
is_stopped s unit = has_status s unit stopped

-- `done_starting` and `done_stopping` answer at once, or wait for an event of the unit's and then
-- look at its result.
pub data Wait : Type 0 where
  answers : Bool → Wait
  awaits : Wait

unfoldable pub done_starting : Supervisor → ℕ → Wait
done_starting s unit = elim (lookup unit s.units) [
  | none ↦ answers false
  | some state ↦
      if same_status state.status running
      then answers true
      else if state.pending_start || same_status state.status entering
      then awaits
      else answers false
]

unfoldable pub done_stopping : Supervisor → ℕ → Wait
done_stopping s unit = elim (lookup unit s.units) [
  | none ↦ answers false
  | some state ↦
      if same_status state.status stopped
      then answers true
      else if state.pending_stop || same_status state.status exiting
      then awaits
      else answers false
]

-- The answer once the event is set.
unfoldable pub after_event : State → Bool
after_event state = not (is_some state.result)

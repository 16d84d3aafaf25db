-- ===== src/Supervisor/Until.antt =====
-- The methods of the supervisor that supervise until something happens, over the rounds of the loop:
-- `_supervise_until`, `supervise_until_done_starting` and `supervise_until_done_stopping`,
-- `start_unit`, `stop_unit` and `_stop`.
pub mod Laws
pub mod Returns
pub mod Stopping
mod Examples
use silkjam.Prelude.{
  ℕ, zero, suc, ◌+◌, ◌*◌, Bool, true, false, not, ◌&&◌, ◌||◌, Option, none, some, List, [], ◌∷◌,
  length, if◌then◌else◌,
}
use silkjam.Prelude.Dict.{lookup}
use silkjam.Prelude.Sets.{mem}
use silkjam.Supervisor.{Supervisor, State, Raised, running, entering, exiting, stopped, same_status}
use silkjam.Supervisor.Commands.{is_some, start_unit_nowait, stop_unit_nowait}
use silkjam.Supervisor.Loop.{
  ReturnWhen, first_event_or_unit, all_units, Progress, Done, restart_ready, insert, add_pending,
  after_wait, none_left,
}

-- What comes of a round: what other tasks do while the loop waits, and what is done then.
pub record Round : Type 0 where
  pub meanwhile : Supervisor → Supervisor
  pub commanded : Bool
  pub done : List Done

-- The loop raises, still waits when the rounds are over, or returns with the rounds to come.
pub data Supervision (A : Type 0) : Type 0 where
  raised waiting : Supervision A
  returned : A → List Round → Supervision A

-- The first half of a round, up to the wait.
abbrev pub before_wait : Supervisor → Supervisor
before_wait s = record (restart_ready s s.units) { locked = true }

unfoldable pub supervise :
    ReturnWhen → List Round → Supervisor × Progress → Supervision (Supervisor × Progress)
unfolding restart_ready after_wait
supervise return_when [] sp = waiting
supervise return_when (r ∷ rounds) (s, p) =
    elim (after_wait return_when (r.meanwhile (before_wait s), p) r.commanded r.done) [
      | none ↦ raised
      | some (sp, met) ↦
          let later = supervise return_when rounds sp in if met then returned sp rounds else later
    ]

abbrev pub to_set : List ℕ → List ℕ
to_set [] = []
to_set (x ∷ xs) = insert x (to_set xs)

-- The sets at the start.
abbrev pub new_progress : List ℕ → Supervisor → Progress
new_progress events s = record {
  done_events = [];
  done_units = [];
  pending_events = to_set events;
  pending_units = add_pending s.running_unit_tasks [];
}

-- The start of the supervisor itself comes before and is left out.
unfoldable pub supervise_until :
    List ℕ → ReturnWhen → List Round → Supervisor → Supervision (Supervisor × Progress)
unfolding supervise add_pending
supervise_until events return_when rounds s =
    supervise return_when rounds (s, new_progress events s)

abbrev pub again :
    (List Round → Supervisor → Supervision Supervisor)
    → Supervision (Supervisor × Progress)
    → Supervision Supervisor
again loop raised = raised
again loop waiting = waiting
again loop (returned (s, p) rounds) = loop rounds s

-- `run`, which supervises for ever: for each call of `supervise_until` some fuel.
unfoldable pub run : ℕ → List Round → Supervisor → Supervision Supervisor
unfolding supervise_until
run zero rounds s = waiting
run (suc fuel) rounds s = again (run fuel) (supervise_until [] first_event_or_unit rounds s)

-- The events of a unit.
abbrev pub done_entering_of : ℕ → ℕ
done_entering_of unit = unit * 2

abbrev pub done_exiting_of : ℕ → ℕ
done_exiting_of unit = unit * 2 + 1

-- `unit in done_units and isinstance(done_units[unit], BaseException)`
abbrev pub has_failed : ℕ → Progress → Bool
has_failed unit p = elim (lookup unit p.done_units) [ none ↦ false | some result ↦ is_some result ]

-- `while True` around `supervise_until([event])`: the answer, unless the loop goes on.
abbrev pub verdict : ℕ → ℕ → Progress → Option Bool
verdict unit event p =
    if has_failed unit p then some false else if mem event p.done_events then some true else none

abbrev pub continue_with :
    (List Round → Supervisor → Supervision (Bool × Supervisor))
    → ℕ
    → ℕ
    → Supervision (Supervisor × Progress)
    → Supervision (Bool × Supervisor)
continue_with loop unit event raised = raised
continue_with loop unit event waiting = waiting
continue_with loop unit event (returned (s, p) rounds) = elim (verdict unit event p) [
  | none ↦ loop rounds s
  | some answer ↦ returned (answer, s) rounds
]

unfoldable pub supervise_until_event :
    ℕ → ℕ → ℕ → List Round → Supervisor → Supervision (Bool × Supervisor)
unfolding supervise_until mem
supervise_until_event zero unit event rounds s = waiting
supervise_until_event (suc fuel) unit event rounds s =
    continue_with (supervise_until_event fuel unit event) unit event
      (supervise_until (event ∷ []) first_event_or_unit rounds s)

-- Each call of `supervise_until` takes a round at least.
abbrev pub calls : List Round → ℕ
calls rounds = suc (length rounds)

unfoldable pub supervise_until_done_starting :
    ℕ → List Round → Supervisor → Supervision (Bool × Supervisor)
unfolding supervise_until_event
supervise_until_done_starting unit rounds s = elim (lookup unit s.units) [
  | none ↦ returned (false, s) rounds
  | some state ↦
      if same_status state.status running
      then returned (true, s) rounds
      else if state.pending_start || same_status state.status entering
      then supervise_until_event (calls rounds) unit (done_entering_of unit) rounds s
      else returned (false, s) rounds
]

unfoldable pub supervise_until_done_stopping :
    ℕ → List Round → Supervisor → Supervision (Bool × Supervisor)
unfolding supervise_until_event
supervise_until_done_stopping unit rounds s = elim (lookup unit s.units) [
  | none ↦ returned (false, s) rounds
  | some state ↦
      if same_status state.status stopped
      then returned (true, s) rounds
      else if state.pending_stop || same_status state.status exiting
      then supervise_until_event (calls rounds) unit (done_exiting_of unit) rounds s
      else returned (false, s) rounds
]

unfoldable pub start_unit : ℕ → List Round → Supervisor → Supervision (Bool × Supervisor)
unfolding start_unit_nowait supervise_until_done_starting
start_unit unit rounds s =
    let (scheduled, s') = start_unit_nowait s unit in
    if scheduled then supervise_until_done_starting unit rounds s' else returned (false, s') rounds

unfoldable pub stop_unit : ℕ → Bool → List Round → Supervisor → Supervision (Bool × Supervisor)
unfolding stop_unit_nowait supervise_until_done_stopping
stop_unit unit force rounds s =
    let (scheduled, s') = stop_unit_nowait s unit force in
    if scheduled then supervise_until_done_stopping unit rounds s' else returned (false, s') rounds

-- `for unit in self._units: self.stop_unit_nowait(unit, force=True)`
unfoldable pub stop_all : List (ℕ × State) → Supervisor → Supervisor
unfolding stop_unit_nowait
stop_all [] s = s
stop_all ((unit, state) ∷ units) s = stop_all units ((stop_unit_nowait s unit true).1)

abbrev pub supervisor_of : Supervision (Supervisor × Progress) → Supervision Supervisor
supervisor_of raised = raised
supervisor_of waiting = waiting
supervisor_of (returned (s, p) rounds) = returned s rounds

-- `_stop`, up to the exit of the stack.
unfoldable pub stop_supervisor : List Round → Supervisor → Supervision Supervisor
unfolding stop_all supervise_until
stop_supervisor rounds s =
    let s' = stop_all s.units s in
    if none_left s'.running_unit_tasks && none_left s'.command_queue
    then returned s' rounds
    else supervisor_of (supervise_until [] all_units rounds s')

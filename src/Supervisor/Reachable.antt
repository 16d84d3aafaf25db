-- ===== src/Supervisor/Reachable.antt =====
-- The states that a supervisor reaches when calls, handled commands, phases of units and rounds
-- of the loop come in any order.
use silkjam.Prelude.{
  [], false, not, ◌&&◌, inl, inr, Bool-cases, Option-cases, ℕ, ◌≡◌, refl, subst, Bool, true, Option,
  none, some, List, ◌∷◌, arith,
}
use silkjam.Prelude.Dict.{lookup}
use silkjam.Supervisor.{
  same_status, ready, entering, running, exiting, Command, start, stop, State, Supervisor, Raised,
  empty_supervisor,
}
use silkjam.Supervisor.Commands.{
  is_some, start_unit_nowait, stop_unit_nowait, add_unit, remove_unit_nowait, handle_command,
}
use silkjam.Supervisor.Lifecycle.{Phase, waits, begin, entered, ran, exited}
use silkjam.Supervisor.Queries.{is_starting, is_running, is_stopping}
use silkjam.Supervisor.Loop.{restart_ready, Progress, task_done, handle_done, clear_task}
use silkjam.Supervisor.Invariant.{starts, IsConsistent, put-IsConsistent, Good-known}
use silkjam.Supervisor.Invariant.Calls.{
  start_unit_nowait-IsConsistent, stop_unit_nowait-IsConsistent, add_unit-IsConsistent,
  remove_unit_nowait-IsConsistent, handle_start, handle_stop,
}
use silkjam.Supervisor.Invariant.Phases.{
  Settles, begin-Settles, entered-Settles, ran-Settles, exited-Settles,
}

-- A phase comes when the status of the unit is the one that the phase before it left.
pub data Step : Supervisor → Supervisor → Type 0 where
  adds :
      (s : Supervisor) (unit : ℕ) (restart stopped_first : Bool)
      → Step s ((add_unit s unit restart stopped_first).1)
  removes : (s : Supervisor) (unit : ℕ) → Step s ((remove_unit_nowait s unit).1)
  starts_up : (s : Supervisor) (unit : ℕ) → Step s ((start_unit_nowait s unit).1)
  stops : (s : Supervisor) (unit : ℕ) (force : Bool) → Step s ((stop_unit_nowait s unit force).1)
  handles :
      (s s' : Supervisor) (command : Command) (unit : ℕ) (q : List (Command × ℕ))
      → s.command_queue ≡ (command, unit) ∷ q
      → handle_command (record s { command_queue = q }) command unit ≡ some s'
      → Step s s'
  begins :
      (s s' : Supervisor) (unit : ℕ) (state : State)
      → lookup unit s.units ≡ some state
      → state.status ≡ ready
      → is_some state.task ≡ true
      → begin s unit state ≡ waits s'
      → Step s s'
  enters :
      (s s' : Supervisor) (unit : ℕ) (state : State) (outcome : Option Raised)
      → lookup unit s.units ≡ some state
      → state.status ≡ entering
      → entered s unit state outcome ≡ waits s'
      → Step s s'
  runs :
      (s s' : Supervisor) (unit : ℕ) (state : State) (outcome : Option Raised)
      → lookup unit s.units ≡ some state
      → state.status ≡ running
      → ran s unit state outcome ≡ waits s'
      → Step s s'
  exits :
      (s s' : Supervisor) (unit : ℕ) (state : State) (outcome : Option Raised)
      → lookup unit s.units ≡ some state
      → state.status ≡ exiting
      → exited s unit state outcome ≡ waits s'
      → Step s s'
  restarts : (s : Supervisor) → Step s (restart_ready s s.units)
  locks : (s : Supervisor) (locked : Bool) → Step s (record s { locked = locked })
  collects :
      (s : Supervisor) (p : Progress) (task unit : ℕ) (result : Option Raised)
      → lookup task s.running_unit_tasks ≡ some unit
      → Step s ((handle_done (s, p) (task_done task result)).0)

pub data IsReachable : Supervisor → Type 0 where
  init : IsReachable empty_supervisor
  then : {s s' : Supervisor} → IsReachable s → Step s s' → IsReachable s'

-- Whether a unit is unknown or has no task.
abbrev pub has_no_task : Option State → Bool
has_no_task none = true
has_no_task (some state) = not (is_some state.task)

-- A step loses a task if it collects the finished task of a unit that has a new one already.
abbrev pub KeepsTask : {s s' : Supervisor} → Step s s' → Type 0
KeepsTask (collects s p task unit result found) = has_no_task (lookup unit s.units) ≡ true
KeepsTask _ = Unit

-- No step of a run loses a task.
abbrev pub KeepsTasks : {s : Supervisor} → IsReachable s → Type 0
KeepsTasks init = Unit
KeepsTasks (then r step) = KeepsTasks r × KeepsTask step

settled : (phase : Phase) (s' : Supervisor) → phase ≡ waits s' → Settles phase → IsConsistent s'
settled phase s' e h = subst Settles e h

collects-IsConsistent :
    (s : Supervisor) (p : Progress) (task unit : ℕ) (result : Option Raised)
    → lookup task s.running_unit_tasks ≡ some unit
    → has_no_task (lookup unit s.units) ≡ true
    → IsConsistent s
    → IsConsistent ((handle_done (s, p) (task_done task result)).0)
unfolding handle_done clear_task
collects-IsConsistent s p task unit result found idle inv =
    elim (Option-cases (lookup unit s.units)) [
      | inl absent ↦ rw (handle_done, found, clear_task, absent) inv
      | inr (state, known) ↦
          rw (handle_done, found, clear_task, known)
            (put-IsConsistent s unit (record state { task = none }) inv
              (ground (arith, idle, known, Good-known s unit state inv known)))
    ]

restart_ready-IsConsistent :
    (units : List (ℕ × State)) (s : Supervisor)
    → IsConsistent s
    → IsConsistent (restart_ready s units)
unfolding restart_ready
restart_ready-IsConsistent [] s inv = inv
restart_ready-IsConsistent ((unit, state) ∷ units) s inv =
    elim (Bool-cases (state.restart && same_status state.status ready && not state.pending_start)) [
      | inl due ↦
          rw (restart_ready, due)
            (restart_ready-IsConsistent units ((start_unit_nowait s unit).1)
              (start_unit_nowait-IsConsistent s unit inv))
      | inr other ↦ rw (restart_ready, other) (restart_ready-IsConsistent units s inv)
    ]

pub Step-IsConsistent :
    (s s' : Supervisor) (step : Step s s') → KeepsTask step → IsConsistent s → IsConsistent s'
Step-IsConsistent _ _ (adds s unit restart stopped_first) _ inv =
    add_unit-IsConsistent s unit restart stopped_first inv
Step-IsConsistent _ _ (removes s unit) _ inv = remove_unit_nowait-IsConsistent s unit inv
Step-IsConsistent _ _ (starts_up s unit) _ inv = start_unit_nowait-IsConsistent s unit inv
Step-IsConsistent _ _ (stops s unit force) _ inv = stop_unit_nowait-IsConsistent s unit force inv
Step-IsConsistent _ _ (handles s s' start unit q e h) _ inv =
    let (s'', e', inv') = handle_start s unit q e inv in
    let same : s'' ≡ s' = ground (arith, e', h) in subst IsConsistent same inv'
Step-IsConsistent _ _ (handles s s' stop unit q e h) _ inv = handle_stop s unit q s' e inv h
Step-IsConsistent _ _ (begins s s' unit state e r t h) _ inv =
    settled (begin s unit state) s' h (begin-Settles s unit state inv e r t)
Step-IsConsistent _ _ (enters s s' unit state outcome e r h) _ inv =
    settled (entered s unit state outcome) s' h (entered-Settles s unit state inv e outcome r)
Step-IsConsistent _ _ (runs s s' unit state outcome e r h) _ inv =
    settled (ran s unit state outcome) s' h (ran-Settles s unit state inv e outcome r)
Step-IsConsistent _ _ (exits s s' unit state outcome e r h) _ inv =
    settled (exited s unit state outcome) s' h (exited-Settles s unit state inv e outcome r)
Step-IsConsistent _ _ (restarts s) _ inv = restart_ready-IsConsistent s.units s inv
Step-IsConsistent _ _ (locks s locked) _ inv = inv
Step-IsConsistent _ _ (collects s p task unit result found) idle inv =
    collects-IsConsistent s p task unit result found idle inv

pub reachable_lem : (s : Supervisor) (r : IsReachable s) → KeepsTasks r → IsConsistent s
unfolding starts lookup
reachable_lem _ init _ = λ u. refl
reachable_lem s' (then {s} r step) (kept, keeps) =
    Step-IsConsistent s s' step keeps (reachable_lem s r kept)

-- In a state that a run reaches in which no task is lost, handling the START at the head of the queue does not raise, and leads to a
-- state of which the invariant holds as well.
pub start_never_raises :
    (s : Supervisor) (unit : ℕ) (q : List (Command × ℕ)) (r : IsReachable s)
    → KeepsTasks r
    → s.command_queue ≡ (start, unit) ∷ q
    → (s' : Supervisor) × (handle_command (record s { command_queue = q }) start unit ≡ some s')
      × IsConsistent s'
start_never_raises s unit q r kept e = handle_start s unit q e (reachable_lem s r kept)

-- In a state that a run reaches in which no task is lost, a unit that `remove_unit_nowait` removes is not starting, running or
-- stopping.
pub removed_idle :
    (s : Supervisor) (unit : ℕ) (r : IsReachable s)
    → KeepsTasks r
    → (remove_unit_nowait s unit).0 ≡ true
    → (is_starting s unit ≡ some false)
      × (is_running s unit ≡ some false)
      × (is_stopping s unit ≡ some false)
unfolding remove_unit_nowait is_starting is_running is_stopping
removed_idle s unit r kept h = elim (Option-cases (lookup unit s.units)) [
  | inl absent ↦ absurd (ground (arith, h, absent))
  | inr (state, e) ↦ ground (arith, h, e, Good-known s unit state (reachable_lem s r kept) e)
]

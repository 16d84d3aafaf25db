-- ===== src/Supervisor.antt =====
-- `Supervisor` of app/backend/supervisor/supervisor.py: the state of the supervisor and of its
-- units. A unit is a number, and so is an asyncio task; `cancelled` holds the tasks on which
-- `cancel` was called, whose effect is left to the outcomes that the phases of a unit take.
pub mod Commands
pub mod Lifecycle
pub mod Loop
pub mod Queries
pub mod Invariant
pub mod Reachable
pub mod Races
pub mod BaseUnit
pub mod Timer
pub mod Idempotence
pub mod Until
mod Examples
use silkjam.Prelude.{ℕ, zero, suc, ◌+◌, Bool, true, false, Option, none, some, List, [], ◌∷◌, ◌==◌}

pub data Status : Type 0 where
  ready entering running exiting stopped : Status

pub data Command : Type 0 where
  start stop : Command

-- What a coroutine of a unit raises.
pub data Raised : Type 0 where
  cancelled_error keyboard_interrupt system_exit : Raised
  exception : ℕ → Raised

pub record State : Type 0 where
  pub restart : Bool
  pub status : Status
  pub task : Option ℕ
  pub result : Option Raised
  pub pending_start : Bool
  pub pending_stop : Bool
  pub force_pending_stop : Bool
  pub done_entering : Bool
  pub done_exiting : Bool

-- The supervisor: `units` is `_units`, `running_unit_tasks` maps tasks to units, `locked` tells
-- whether the supervise loop waits, and `next_task` is the task that is created next.
pub record Supervisor : Type 0 where
  pub units : List (ℕ × State)
  pub running_unit_tasks : List (ℕ × ℕ)
  pub command_queue : List (Command × ℕ)
  pub locked : Bool
  pub cancelled : List ℕ
  pub next_task : ℕ

-- `State(restart, status)` with the defaults of the other fields.
unfoldable pub new_state : Bool → Status → State
new_state restart status = record {
  restart = restart;
  status = status;
  task = none;
  result = none;
  pending_start = false;
  pending_stop = false;
  force_pending_stop = false;
  done_entering = false;
  done_exiting = false;
}

abbrev pub code : Status → ℕ
code ready = 0
code entering = 1
code running = 2
code exiting = 3
code stopped = 4

-- `a == b` on statuses.
abbrev pub same_status : Status → Status → Bool
same_status a b = code a == code b

-- A supervisor without units.
abbrev pub empty_supervisor : Supervisor
empty_supervisor = record {
  units = [];
  running_unit_tasks = [];
  command_queue = [];
  locked = false;
  cancelled = [];
  next_task = 0;
}

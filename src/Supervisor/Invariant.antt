-- ===== src/Supervisor/Invariant.antt =====
-- The invariant of the supervisor: the START commands in the queue, and the status, the task and
-- the pending start of each unit agree.
pub mod Calls
pub mod Phases
use silkjam.Prelude.{
  ℕ, zero, suc, ◌+◌, ◌≡◌, refl, sym, subst, ◌≢◌, Bool, true, false, not, ◌&&◌, ◌||◌, Option, none,
  some, List, [], ◌∷◌, ◌++◌, ◌==◌, if◌then◌else◌, arith, ap, ◌∙◌, inl, inr, Option-cases,
  Bool-cases,
}
use silkjam.Prelude.Dict.{
  lookup, store, remove, lookup-store, lookup-store_other, lookup-remove, lookup-remove_other,
}
use silkjam.Supervisor.{
  Status, ready, entering, running, exiting, stopped, Command, start, stop, State, Supervisor,
  new_state, Raised,
}
use silkjam.Supervisor.Commands.{
  put, enqueue, is_some, start_unit_nowait, stop_unit_nowait, add_unit, remove_unit_nowait,
  start_unit, stop_unit, handle_command,
}
use native.Mathlib.Decide.{ℕ_discrete}

-- How many START commands for a unit the queue holds.
unfoldable pub starts : ℕ → List (Command × ℕ) → ℕ
starts u [] = 0
starts u ((start, v) ∷ q) = let n = starts u q in if u == v then suc n else n
starts u ((stop, v) ∷ q) = starts u q

-- One START is due to a unit that is to start and has no task yet.
abbrev pub due : State → ℕ
due state = if state.pending_start && not (is_some state.task) then 1 else 0

-- What the status says about the task and the pending start.
abbrev pub agrees : Status → Bool → Bool → Bool
agrees ready task pending = not task || pending
agrees entering task pending = task && pending
agrees running task pending = task && not pending
agrees exiting task pending = task && not pending
agrees stopped task pending = not task && not pending

abbrev pub Good : ℕ → Option State → Type 0
Good n none = n ≡ 0
Good n (some state) =
    (n ≡ due state) × (agrees state.status (is_some state.task) state.pending_start ≡ true)

abbrev pub IsConsistent : Supervisor → Type 0
IsConsistent s = (u : ℕ) → Good (starts u s.command_queue) (lookup u s.units)

pub starts-append : (u : ℕ) (q r : List (Command × ℕ)) → starts u (q ++ r) ≡ starts u q + starts u r
unfolding starts
starts-append u [] r = omega arith
starts-append u ((start, v) ∷ q) r = ground (arith, starts-append u q r)
starts-append u ((stop, v) ∷ q) r = starts-append u q r

-- One unit and its commands change, the others do not.
pub changed_unit :
    (s s' : Supervisor) (unit : ℕ) (state : State)
    → IsConsistent s
    → s'.units ≡ store unit state s.units
    → ((u : ℕ) → u ≢ unit → starts u s'.command_queue ≡ starts u s.command_queue)
    → Good (starts unit s'.command_queue) (some state)
    → IsConsistent s'
changed_unit s s' unit state inv e others good u = elim (ℕ_discrete u unit) [
  | yes same ↦
      rw (e, same)
        (subst (Good (starts unit s'.command_queue)) (sym (lookup-store unit state s.units)) good)
  | no other ↦ rw (e, lookup-store_other u unit state s.units other, others u other) (inv u)
]

pub put-IsConsistent :
    (s : Supervisor) (unit : ℕ) (state : State)
    → IsConsistent s
    → Good (starts unit s.command_queue) (some state)
    → IsConsistent (put s unit state)
put-IsConsistent s unit state inv good =
    changed_unit s (put s unit state) unit state inv refl (λ u other. refl) good

pub put-start-IsConsistent :
    (s : Supervisor) (unit : ℕ) (state : State)
    → IsConsistent s
    → Good (suc (starts unit s.command_queue)) (some state)
    → IsConsistent (put (enqueue s start unit) unit state)
unfolding starts
put-start-IsConsistent s unit state inv good =
    changed_unit s (put (enqueue s start unit) unit state) unit state inv refl
      (λ u other. ground (arith, other, starts-append u s.command_queue ((start, unit) ∷ [])))
      (subst (λ n. Good n (some state))
        (ground (arith, starts-append unit s.command_queue ((start, unit) ∷ []))) good)

pub put-stop-IsConsistent :
    (s : Supervisor) (unit : ℕ) (state : State)
    → IsConsistent s
    → Good (starts unit s.command_queue) (some state)
    → IsConsistent (put (enqueue s stop unit) unit state)
unfolding starts
put-stop-IsConsistent s unit state inv good =
    changed_unit s (put (enqueue s stop unit) unit state) unit state inv refl
      (λ u other. ground (arith, other, starts-append u s.command_queue ((stop, unit) ∷ [])))
      (subst (λ n. Good n (some state))
        (ground (arith, starts-append unit s.command_queue ((stop, unit) ∷ []))) good)

pub Good-known :
    (s : Supervisor) (unit : ℕ) (state : State)
    → IsConsistent s
    → lookup unit s.units ≡ some state
    → Good (starts unit s.command_queue) (some state)
Good-known s unit state inv e = subst (Good (starts unit s.command_queue)) e (inv unit)

-- ===== src/Supervisor/Invariant/Calls.antt =====
-- Every call and every handled command keeps the invariant.
use silkjam.Prelude.{
  ℕ, suc, ◌≡◌, refl, sym, subst, ◌≢◌, Bool, true, false, ◌||◌, some, List, ◌∷◌, arith, ap, ◌∙◌, inl,
  inr, Option-cases, Bool-cases,
}
use silkjam.Prelude.Dict.{lookup, lookup-remove, lookup-remove_other}
use silkjam.Supervisor.{ready, stopped, Command, start, stop, Supervisor, new_state}
use silkjam.Supervisor.Commands.{
  put, is_some, start_unit_nowait, stop_unit_nowait, add_unit, remove_unit_nowait, start_unit,
  stop_unit, handle_command,
}
use silkjam.Supervisor.Invariant.{
  starts, Good, IsConsistent, changed_unit, put-IsConsistent, put-start-IsConsistent,
  put-stop-IsConsistent, Good-known,
}
use native.Mathlib.Decide.{ℕ_discrete}

pub start_unit_nowait-IsConsistent :
    (s : Supervisor) (unit : ℕ) → IsConsistent s → IsConsistent ((start_unit_nowait s unit).1)
unfolding start_unit_nowait
start_unit_nowait-IsConsistent s unit inv = elim (Option-cases (lookup unit s.units)) [
  | inl absent ↦ rw (start_unit_nowait, absent) inv
  | inr (state, e) ↦
      rw (start_unit_nowait, e)
        (ground (
          arith,
          inv,
          Good-known s unit state inv e,
          put-IsConsistent s unit (record state { status = ready }) inv,
          put-start-IsConsistent s unit (record state { status = ready; pending_start = true }) inv,
        ))
]

pub stop_unit_nowait-IsConsistent :
    (s : Supervisor) (unit : ℕ) (force : Bool)
    → IsConsistent s
    → IsConsistent ((stop_unit_nowait s unit force).1)
unfolding stop_unit_nowait
stop_unit_nowait-IsConsistent s unit force inv = elim (Option-cases (lookup unit s.units)) [
  | inl absent ↦ rw (stop_unit_nowait, absent) inv
  | inr (state, e) ↦
      rw (stop_unit_nowait, e)
        (ground (
          arith,
          inv,
          Good-known s unit state inv e,
          put-IsConsistent s unit (record state { status = stopped }) inv,
          put-IsConsistent s unit (record state { pending_stop = true }) inv,
          put-stop-IsConsistent s unit
              (record state {
                pending_stop = true;
                force_pending_stop = state.force_pending_stop || force;
              })
              inv,
        ))
]

pub remove_unit_nowait-IsConsistent :
    (s : Supervisor) (unit : ℕ) → IsConsistent s → IsConsistent ((remove_unit_nowait s unit).1)
unfolding remove_unit_nowait
remove_unit_nowait-IsConsistent s unit inv = elim (Option-cases (lookup unit s.units)) [
  | inl absent ↦ rw (remove_unit_nowait, absent) inv
  | inr (state, e) ↦
      rw (remove_unit_nowait, e)
        (elim (Bool-cases (is_some state.task || state.pending_start)) [
          | inl busy ↦ rw busy inv
          | inr idle ↦ rw idle λ u. elim (ℕ_discrete u unit) [
            | yes same ↦ rw same (
                subst (Good (starts unit s.command_queue)) (sym (lookup-remove unit s.units))
                  (ground (arith, Good-known s unit state inv e)))
            | no other ↦ rw (lookup-remove_other u unit s.units other) (inv u)
          ]
        ])
]

pub add_unit-IsConsistent :
    (s : Supervisor) (unit : ℕ) (restart stopped_first : Bool)
    → IsConsistent s
    → IsConsistent ((add_unit s unit restart stopped_first).1)
unfolding add_unit new_state
add_unit-IsConsistent s unit restart stopped_first inv = elim (Option-cases (lookup unit s.units)) [
  | inr (state, e) ↦ rw (add_unit, e) inv
  | inl absent ↦
      let none_due : starts unit s.command_queue ≡ 0 =
        subst (Good (starts unit s.command_queue)) absent (inv unit) in
      rw (add_unit, absent)
        (elim (Bool-cases stopped_first) [
          | inl waits ↦
              rw waits (put-IsConsistent s unit (new_state restart stopped) inv (ground arith))
          | inr goes ↦ rw goes (
              start_unit_nowait-IsConsistent (put s unit (new_state restart ready)) unit
                (put-IsConsistent s unit (new_state restart ready) inv (ground arith)))
        ])
]

module _ (s : Supervisor) (unit : ℕ) (q : List (Command × ℕ)) where
  starts-head :
      s.command_queue ≡ (start, unit) ∷ q → starts unit s.command_queue ≡ suc (starts unit q)
  unfolding starts
  starts-head e = ap (starts unit) e ∙ ground arith

  starts-other :
      (c : Command) (u : ℕ)
      → s.command_queue ≡ (c, unit) ∷ q
      → u ≢ unit
      → starts u q ≡ starts u s.command_queue
  unfolding starts
  starts-other start u e other = ground arith ∙ ap (starts u) (sym e)
  starts-other stop u e other = ap (starts u) (sym e)

  -- A START at the head of the queue is for a known unit without a task.
  pub handle_start :
      s.command_queue ≡ (start, unit) ∷ q
      → IsConsistent s
      → (s' : Supervisor) × (handle_command (record s { command_queue = q }) start unit ≡ some s')
        × IsConsistent s'
  unfolding handle_command start_unit
  handle_start e inv = elim (Option-cases (lookup unit s.units)) [
    | inl absent ↦
        absurd (
          omega
            (arith, starts-head e, subst (Good (starts unit s.command_queue)) absent (inv unit)))
    | inr (state, known) ↦
        let good = Good-known s unit state inv known in
        let free : is_some state.task ≡ false = ground (arith, good, starts-head e) in
        let s' = start_unit (record s { command_queue = q }) unit state in
        (
          s',
          rw (handle_command, known, free) refl,
          changed_unit s s' unit (record state { task = some s.next_task }) inv refl
              (λ u other. starts-other start u e other) (ground (arith, good, starts-head e)),
        )
  ]

  popped :
      s.command_queue ≡ (stop, unit) ∷ q
      → IsConsistent s
      → IsConsistent (record s { command_queue = q })
  unfolding starts
  popped e inv u = subst (λ n. Good n (lookup u s.units)) (ap (starts u) e) (inv u)

  -- A STOP that is handled changes no unit and no command.
  stop-unchanged :
      (p s' : Supervisor)
      → handle_command p stop unit ≡ some s'
      → (s'.units ≡ p.units) × (s'.command_queue ≡ p.command_queue)
  unfolding handle_command stop_unit
  stop-unchanged p s' h = ground arith

  pub handle_stop :
      (s' : Supervisor)
      → s.command_queue ≡ (stop, unit) ∷ q
      → IsConsistent s
      → handle_command (record s { command_queue = q }) stop unit ≡ some s'
      → IsConsistent s'
  handle_stop s' e inv h =
      let (units, queue) = stop-unchanged (record s { command_queue = q }) s' h in
      rw (units, queue) (popped e inv)

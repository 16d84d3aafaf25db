-- ===== src/Supervisor/Invariant/Phases.antt =====
-- Every phase of a unit keeps the invariant, fails no assertion and raises nothing.
use silkjam.Prelude.{ℕ, ◌≡◌, refl, true, false, Option, none, some, arith, inl, inr, ◌⊎◌}
use silkjam.Prelude.Dict.{lookup}
use silkjam.Supervisor.{ready, entering, running, exiting, State, Supervisor, Raised}
use silkjam.Supervisor.Commands.{is_some, stop_unit}
use silkjam.Supervisor.Invariant.{IsConsistent, put-IsConsistent, Good-known}
use silkjam.Supervisor.Lifecycle.{
  Phase, waits, raised, failed, begin, begin_exit, entered, ran, finish, exited, final_status,
}

-- The phase waits in a consistent state.
abbrev pub Settles : Phase → Type 0
Settles (waits s) = IsConsistent s
Settles (raised err) = ⊥
Settles failed = ⊥

module _ (s : Supervisor) (unit : ℕ) (state : State) (inv : IsConsistent s)
    (e : lookup unit s.units ≡ some state) where
  pub begin-Settles :
      state.status ≡ ready → is_some state.task ≡ true → Settles (begin s unit state)
  unfolding begin stop_unit
  begin-Settles h t = ground (
    arith,
    inv,
    Good-known s unit state inv e,
    put-IsConsistent s unit
        (record state {
          result = none;
          done_entering = false;
          done_exiting = false;
          status = entering;
        })
        inv,
  )

  begin_exit-Settles :
      (state' : State)
      → state'.task ≡ state.task
      → (state.status ≡ running) ⊎ (state.status ≡ entering)
      → Settles (begin_exit s unit state')
  unfolding begin_exit
  begin_exit-Settles state' t h = ground (
    arith,
    inv,
    Good-known s unit state inv e,
    put-IsConsistent s unit
        (record state' { done_entering = true; pending_start = false; status = exiting }) inv,
  )

  pub entered-Settles :
      (outcome : Option Raised) → state.status ≡ entering → Settles (entered s unit state outcome)
  unfolding entered stop_unit
  entered-Settles (some err) h =
      begin_exit-Settles (record state { result = some err }) refl (inr h)
  entered-Settles none h = ground (
    arith,
    inv,
    Good-known s unit state inv e,
    put-IsConsistent s unit
        (record state { done_entering = true; pending_start = false; status = running }) inv,
  )

  pub ran-Settles :
      (outcome : Option Raised) → state.status ≡ running → Settles (ran s unit state outcome)
  unfolding ran
  ran-Settles (some err) h = begin_exit-Settles (record state { result = some err }) refl (inl h)
  ran-Settles none h = begin_exit-Settles (record state { result = none }) refl (inl h)

  finish-Settles :
      (state' : State)
      → state'.task ≡ state.task
      → state'.pending_start ≡ state.pending_start
      → state.status ≡ exiting
      → Settles (finish s unit state')
  unfolding finish
  finish-Settles state' t p h = ground (
    arith,
    inv,
    Good-known s unit state inv e,
    put-IsConsistent s unit
        (record state' {
          done_exiting = true;
          status = final_status state';
          pending_stop = false;
          force_pending_stop = false;
          task = none;
          done_entering = false;
        })
        inv,
  )

  pub exited-Settles :
      (outcome : Option Raised) → state.status ≡ exiting → Settles (exited s unit state outcome)
  unfolding exited
  exited-Settles (some err) h = finish-Settles (record state { result = some err }) refl refl h
  exited-Settles none h = finish-Settles state refl refl h
